-- ===== src/Receipts/Grounded.antt =====
-- What the receipts of crates/dent8-store/src/memory.rs rest on.
use dent.Prelude.{
  ℕ, ◌≡◌, true, none, some, arith, get_elem?, last, ok, inl, inr, Result-cases, Option-cases,
}
use dent.Prelude.Maps.{string_key, get}
use dent.Model.{FactId, TimestampMillis}
use dent.State.{FactState}
use dent.Replay.{replay_fact}
use dent.Hash.{Codec}
use dent.Memory.{InMemoryEventStore, StoredEvent, load_fact_events}
use dent.Memory.Index.{stream, positions}
use dent.Memory.Invariant.{IsSound, load_fact_events-stream, verify_chain_of_sound}
use dent.Receipts.{IntegrityReceipt, receipt_for, explain, explain_with, explain_at}

module _ (c : Codec) where
  -- What a receipt of a sound store rests on: the fold of the fact's part of the log, whose chain verifies,
  -- and the last event of that part.
  pub record IsGrounded (store : InMemoryEventStore) (fact : FactId) (now : TimestampMillis)
      (r : IntegrityReceipt) : Type 0 where
    pub state : FactState
    pub newest : StoredEvent
    pub place : ℕ
    pub is_last : last (positions fact 0 store.log) ≡ some place
    pub there : get_elem? store.log place ≡ some newest
    pub folded : replay_fact (stream fact store.log) ≡ ok (some state)
    pub receipt : r ≡ receipt_for state newest now true

  -- A receipt of a sound store is made of the fold of all of the fact's events and of the last of them, and says that
  -- the chain verifies.
  pub explain-IsGrounded :
      (store : InMemoryEventStore) (fact : FactId) (now : TimestampMillis) (r : IntegrityReceipt)
      → IsSound c store
      → explain c store fact now ≡ ok (some r)
      → IsGrounded store fact now r
  unfolding explain explain_with explain_at load_fact_events
  explain-IsGrounded store fact now r v h =
      let loaded = load_fact_events-stream c store fact v in
      elim (Option-cases (get fact store.by_fact)) [
        | inl none_there ↦ absurd (ground (arith, none_there))
        | inr (indices, there) ↦ elim (Option-cases (last indices)) [
          | inl empty ↦ absurd (ground (arith, there, empty))
          | inr (i, final) ↦ elim (Result-cases (replay_fact (stream fact store.log))) [
            | inr (x, fails_so) ↦ absurd (ground (arith, there, final, loaded, fails_so))
            | inl (none, folds) ↦ absurd (ground (arith, there, final, loaded, folds))
            | inl (some state, folds) ↦ elim (Option-cases (get_elem? store.log i)) [
              | inl out ↦ absurd (ground (arith, there, final, loaded, folds, out))
              | inr (stored, here) ↦ record {
                state = state;
                newest = stored;
                place = i;
                is_last = ground (arith, v.indexed fact, there, final);
                there = here;
                folded = folds;
                receipt =
                    ground
                      (arith, there, final, loaded, folds, here, verify_chain_of_sound c store v);
              }
            ]
          ]
        ]
      ]
