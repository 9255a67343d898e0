-- ===== src/DeadLetters/Replay.antt =====
-- packages/storage/repositories/dead_letter.py: replay requests for one dead letter.
use k8s_clue.Prelude.{ℕ, String, ◌≡◌, refl, Bool, false, none, List, [], ◌∷◌, arith}
use k8s_clue.Prelude.Rows.{select_first, update_where}
use k8s_clue.DeadLetters.{
  DeadLetter, DeadLetters, is_open_row, replay_row, mark_dead_letter_replayed,
}

no_open_row :
    (now id : ℕ) (event_id : String) (rows : List DeadLetter)
    → select_first (is_open_row id) (update_where (is_open_row id) (replay_row now event_id) rows)
      ≡ none
unfolding select_first update_where replay_row
no_open_row now id event_id [] = refl
no_open_row now id event_id (row ∷ rows) = ground (arith, no_open_row now id event_id rows)

-- An UPDATE that selects no row writes none.
update_none :
    (hit : DeadLetter → Bool) (set : DeadLetter → DeadLetter) (rows : List DeadLetter)
    → select_first hit rows ≡ none
    → update_where hit set rows ≡ rows
unfolding select_first update_where
update_none hit set [] e = refl
update_none hit set (row ∷ rows) e = ground (arith, update_none hit set rows)

-- Of two replay requests for one dead letter, one after the other, the second is refused and
-- changes nothing: the letter keeps the replay event of the first.
pub replay-once :
    (now now' id : ℕ) (event_id event_id' : String) (letters : DeadLetters)
    → let letters' = (mark_dead_letter_replayed now id event_id letters).0 in
      mark_dead_letter_replayed now' id event_id' letters' ≡ (letters', false)
unfolding mark_dead_letter_replayed
replay-once now now' id event_id event_id' letters =
    let gone = no_open_row now id event_id letters.rows in
    let rows = update_where (is_open_row id) (replay_row now event_id) letters.rows in
    rw (gone, update_none (is_open_row id) (replay_row now' event_id') rows gone)
