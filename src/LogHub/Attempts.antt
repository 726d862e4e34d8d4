-- ===== src/LogHub/Attempts.antt =====
-- What the masks of a job remember when it goes back to the queue (backend/src/services/log_hub.rs): the
-- number of the last chunk stays, while the next attempt numbers its chunks from the start.
use mathlib.Core.Bool.{true≢false}
use overup.Prelude.{
  sym, ◌∙◌, ap, ◌==◌, ℕ, ◌+◌, ◌<◌, ◌≤◌, ◌≡◌, refl, true, false, Option, none, some, List, ltb,
  is_empty, arith, Text, Bool-cases, ◌⊎◌, inl, inr,
}
use overup.LogHub.{kept, Stream, MaskState, register_masks, mask_chunk, finish_job, clear_later}

-- The job is requeued and dispatched again: the carry is flushed and the masks are registered anew.
abbrev pub again : List Text → MaskState → Option MaskState
again values st = register_masks values (finish_job (some st)).0

flushed :
    (st : MaskState)
    → (st' : MaskState) × ((finish_job (some st)).0 ≡ some st')
      × (st.next_seq ≤ st'.next_seq)
      × (st'.generation ≡ st.generation)
unfolding finish_job
flushed st = elim (Bool-cases (is_empty st.carry)) [
  | inl e ↦ rw e (st, refl, omega arith, refl)
  | inr e ↦ rw e (_, refl, omega arith, refl)
]

registered :
    (values : List Text) (st : MaskState)
    → (st' : MaskState) × (register_masks values (some st) ≡ some st')
      × (st'.next_seq ≡ st.next_seq)
      × ((is_empty (kept values) ≡ true) ⊎ (st'.generation ≡ st.generation + 1))
unfolding register_masks
registered values st = elim (Bool-cases (is_empty (kept values))) [
  | inl e ↦ rw e (st, refl, refl, inl refl)
  | inr e ↦ rw e (_, refl, refl, inr refl)
]

again-some :
    (values : List Text) (st : MaskState)
    → (st' : MaskState) × (again values st ≡ some st')
      × (st.next_seq ≤ st'.next_seq)
      × ((is_empty (kept values) ≡ true) ⊎ (st'.generation ≡ st.generation + 1))
again-some values st =
    let (a, ea, na, ga) = flushed st in
    let (b, eb, nb, gb) = registered values a in
    (
      b,
      ap (register_masks values) ea ∙ eb,
      omega (arith, na, nb),
      elim gb [ inl e ↦ inl e | inr g ↦ inr (g ∙ ap (λ n. n + 1) ga) ],
    )

-- A chunk of the new attempt whose number the old one has passed is dropped, and nothing of it is emitted.
pub second_attempt_dropped :
    (values : List Text) (st : MaskState) (seq : ℕ) (stream : Stream) (text : Text)
    (place : Option ℕ × Option Text)
    → seq < st.next_seq
    → mask_chunk seq stream text place (again values st) ≡ (again values st, none)
unfolding mask_chunk
second_attempt_dropped values st seq stream text place old =
    let (st', e, later, _) = again-some values st in
    let seen : ltb seq st'.next_seq ≡ true = ground (arith, later, old) in rw e (rw seen refl)

-- If the new attempt registers a value that is long enough, the removal that the requeueing has planned
-- does not remove the masks.
pub clear_later-again :
    (values : List Text) (st : MaskState)
    → is_empty (kept values) ≡ false
    → clear_later st.generation (again values st) ≡ again values st
unfolding clear_later
clear_later-again values st some_kept =
    let (st', e, _, newer) = again-some values st in
    let other : st'.generation == st.generation ≡ false = elim newer [
      | inl empty ↦ absurd (true≢false (sym empty ∙ some_kept))
      | inr g ↦ (let same = g in ground (arith, same))
    ] in
    rw e (rw other refl)
