-- ===== src/OperationStatus/Graph.antt =====
-- The status graph of backend/app/operation_status.py: what can follow what.
use mathlib.Core.List.{Memᴰ}
use mathlib.Core.Path.{subst}
use file_nest.Base.{
  String, ◌≡◌, ◌↔◌, ◌⊎◌, refl, sym, Bool, true, false, List, [], ◌∷◌, Result, ok, err, ◌>>=◌, arith,
  inl, inr, some, eq_iff, if◌then◌else◌, Bool-cases, Option-cases, all, not, >>=-eq-ok,
}
use file_nest.OperationStatus.{
  OperationStatus, proposed, waiting_approval, approved, rejected, cancelled, executing,
  partial_failed, completed, undoing, undone, compensated, failed, StatusError, invalid_transition,
  value, coerce_status, is_terminal_operation_status, transition_operation_status, member_of_value,
  members, is_member, terminal_operation_statuses, operation_status_transitions, is_empty,
  same_status, OperationStatus-discrete, coerce_in,
}

-- Every member is found again under its value.
pub coerce-value : (s : OperationStatus) → coerce_status (value s) ≡ ok s
unfolding coerce_status
coerce-value proposed = refl
coerce-value _ = refl

member_of_value-value :
    (text : String) (ms : List OperationStatus) (s : OperationStatus)
    → member_of_value text ms ≡ some s
    → text ≡ value s
member_of_value-value text [] s h = cc
member_of_value-value text (m ∷ ms) s h =
    ground (arith, eq_iff text (value m), member_of_value-value text ms s)

value_of_coerce_in :
    (text : String) (ms : List OperationStatus) (s : OperationStatus)
    → coerce_in text ms ≡ ok s
    → text ≡ value s
unfolding coerce_in
value_of_coerce_in text ms s h = elim (Option-cases (member_of_value text ms)) [
  | inl e ↦ absurd (cc (h, e))
  | inr found ↦ member_of_value-value text ms s (cc (h, found.1))
]

-- A text is accepted as a status exactly if it is the value of that status.
pub coerce_status_iff :
    (text : String) (s : OperationStatus) → (coerce_status text ≡ ok s) ↔ (text ≡ value s)
unfolding coerce_status
coerce_status_iff text s = (value_of_coerce_in text members s, λ e. rw e (coerce-value s))

-- The table decides each transition between two members.
pub transition-value :
    (s n : OperationStatus)
    → transition_operation_status (value s) (value n) ≡ (
        if is_member n (operation_status_transitions s) then ok n else err (invalid_transition s n))
unfolding transition_operation_status
transition-value s n = simp coerce-value (ground arith)

is_terminal-value :
    (s : OperationStatus)
    → is_terminal_operation_status (value s) ≡ ok (is_member s terminal_operation_statuses)
unfolding is_terminal_operation_status
is_terminal-value s = rw coerce-value

-- the two tables, compared member by member
terminal_table :
    (s : OperationStatus)
    → is_member s terminal_operation_statuses ≡ is_empty (operation_status_transitions s)
unfolding is_member
terminal_table proposed = refl
terminal_table _ = refl

-- an edge of each row that has one
edge :
    (s : OperationStatus)
    → is_empty (operation_status_transitions s) ≡ false
    → (n : OperationStatus) × (is_member n (operation_status_transitions s) ≡ true)
unfolding is_member
edge proposed h = (cancelled, refl)
edge waiting_approval h = (cancelled, refl)
edge approved h = (cancelled, refl)
edge executing h = (failed, refl)
edge partial_failed h = (failed, refl)
edge completed h = (undoing, refl)
edge undoing h = (failed, refl)
edge failed h = (executing, refl)
edge _ h = absurd (cc h)

no_edge :
    (s n : OperationStatus)
    → is_empty (operation_status_transitions s) ≡ true
    → is_member n (operation_status_transitions s) ≡ false
unfolding is_member
no_edge proposed n h = cc
no_edge _ n h = ground arith

-- A status is terminal exactly when the graph rejects every next status.
pub terminal_iff_stuck :
    (s : OperationStatus)
    → (is_terminal_operation_status (value s) ≡ ok true) ↔ (
        (n : OperationStatus)
        → transition_operation_status (value s) (value n) ≡ err (invalid_transition s n))
terminal_iff_stuck s = (
  λ h n. rw (transition-value, no_edge s n (ground (arith, is_terminal-value s, terminal_table s))),
  λ h. elim (Bool-cases (is_empty (operation_status_transitions s))) [
    | inl empty ↦ rw (is_terminal-value, terminal_table s, empty)
    | inr more ↦ let (n, accepted) = edge s more in ground (arith, transition-value s n, h n)
  ],
)

-- Successive calls of `transition_operation_status`, each from the status that the last returned.
abbrev pub transition_all :
    OperationStatus → List OperationStatus → Result StatusError OperationStatus
transition_all s [] = ok s
transition_all s (n ∷ ns) = do
  next ← transition_operation_status (value s) (value n)
  transition_all next ns

-- `executing` and all that can follow it: files may have been changed.
abbrev pub has_side_effects : OperationStatus → Bool
has_side_effects proposed = false
has_side_effects waiting_approval = false
has_side_effects approved = false
has_side_effects rejected = false
has_side_effects cancelled = false
has_side_effects _ = true

accepted_edge :
    (s n t : OperationStatus)
    → transition_operation_status (value s) (value n) ≡ ok t
    → (t ≡ n) × (is_member n (operation_status_transitions s) ≡ true)
accepted_edge s n t h = ground (arith, transition-value s n)

all-is_member :
    (p : OperationStatus → Bool) (n : OperationStatus) (row : List OperationStatus)
    → all p row ≡ true
    → is_member n row ≡ true
    → p n ≡ true
unfolding is_member same_status
all-is_member p n [] h m = cc
all-is_member p n (s ∷ row) h m = elim (OperationStatus-discrete n s) [
  | yes e ↦ rw e (ground arith)
  | no other ↦ all-is_member p n row (ground arith) (ground arith)
]

row_side_effects :
    (s : OperationStatus)
    → has_side_effects s ≡ true
    → all has_side_effects (operation_status_transitions s) ≡ true
row_side_effects proposed e = cc
row_side_effects _ e = ground arith

step_side_effects :
    (s n t : OperationStatus)
    → transition_operation_status (value s) (value n) ≡ ok t
    → has_side_effects s ≡ true
    → has_side_effects t ≡ true
step_side_effects s n t h e =
    let (same, accepted) = accepted_edge s n t h in
    rw same (
      all-is_member has_side_effects n (operation_status_transitions s) (row_side_effects s e)
        accepted)

-- From a status that may have changed files, that is `executing` or a later one, every accepted sequence
-- of transitions leads to such a status again: never to `cancelled`, `rejected` or one before execution.
pub side_effects_absorb :
    (s t : OperationStatus) (ns : List OperationStatus)
    → has_side_effects s ≡ true
    → transition_all s ns ≡ ok t
    → has_side_effects t ≡ true
side_effects_absorb s t [] e h = cc
side_effects_absorb s t (n ∷ ns) e h =
    let (u, first, rest) = >>=-eq-ok (transition_operation_status (value s) (value n)) _ h in
    side_effects_absorb u t ns (step_side_effects s n u first e) rest

row_before_approval :
    (s : OperationStatus)
    → has_side_effects s ≡ false
    → (s ≡ approved) ⊎ (all (λ n. not (has_side_effects n)) (operation_status_transitions s) ≡ true)
row_before_approval proposed e = inr refl
row_before_approval approved e = inl refl
row_before_approval _ e = ground arith

step_before_approval :
    (s n t : OperationStatus)
    → transition_operation_status (value s) (value n) ≡ ok t
    → has_side_effects s ≡ false
    → (s ≡ approved) ⊎ (has_side_effects t ≡ false)
step_before_approval s n t h e =
    let (same, accepted) = accepted_edge s n t h in
    elim (row_before_approval s e) [
      | inl p ↦ inl p
      | inr row ↦ inr (
          rw same (
            ground (
              arith,
              all-is_member (λ x. not (has_side_effects x)) n (operation_status_transitions s) row
                  accepted,
            )))
    ]

-- A sequence of transitions from a status before `executing` to one that may have changed files
-- starts at `approved` or requests it: no file is changed without approval.
pub side_effects_need_approval :
    (s t : OperationStatus) (ns : List OperationStatus)
    → has_side_effects s ≡ false
    → transition_all s ns ≡ ok t
    → has_side_effects t ≡ true
    → Memᴰ approved (s ∷ ns)
side_effects_need_approval s t [] e h f = absurd (cc (h, e, f))
side_effects_need_approval s t (n ∷ ns) e h f =
    let (u, first, rest) = >>=-eq-ok (transition_operation_status (value s) (value n)) _ h in
    elim (step_before_approval s n u first e) [
      | inl p ↦ Memᴰ.head (sym p)
      | inr before ↦ Memᴰ.tail (
          subst (λ x. Memᴰ approved (x ∷ ns)) (accepted_edge s n u first).0
            (side_effects_need_approval u t ns before rest f))
    ]

-- Every status has a sequence of accepted transitions to a terminal one.
pub reaches_terminal :
    (s : OperationStatus)
    → (ns : List OperationStatus) × (t : OperationStatus) × (transition_all s ns ≡ ok t)
      × (is_terminal_operation_status (value t) ≡ ok true)
unfolding transition_operation_status is_terminal_operation_status coerce_status
reaches_terminal proposed = (cancelled ∷ [], cancelled, refl, refl)
reaches_terminal waiting_approval = (rejected ∷ [], rejected, refl, refl)
reaches_terminal approved = (cancelled ∷ [], cancelled, refl, refl)
reaches_terminal rejected = ([], rejected, refl, refl)
reaches_terminal cancelled = ([], cancelled, refl, refl)
reaches_terminal executing = (completed ∷ undoing ∷ undone ∷ [], undone, refl, refl)
reaches_terminal partial_failed = (undoing ∷ compensated ∷ [], compensated, refl, refl)
reaches_terminal completed = (undoing ∷ undone ∷ [], undone, refl, refl)
reaches_terminal undoing = (undone ∷ [], undone, refl, refl)
reaches_terminal undone = ([], undone, refl, refl)
reaches_terminal compensated = ([], compensated, refl, refl)
reaches_terminal failed =
    (executing ∷ partial_failed ∷ undoing ∷ compensated ∷ [], compensated, refl, refl)
