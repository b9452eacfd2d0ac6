-- ===== src/Session/Listing/Once.antt =====
-- Every session is listed once.
use autocim_agent.Prelude.{
  ℕ, ◌≡◌, refl, ◌∙◌, ap, String, str_eq, eq_iff, true, not, ◌&&◌, Bool-cases, inl, inr, arith, List,
  [], ◌∷◌, count, if◌then◌else◌,
}
use autocim_agent.Session.Run.{Snapshot, absent, complete, paused, unfinished}
use autocim_agent.Session.Listing.{SessionRow, contains, session_row, list_unseen, list_sessions}

abbrev pub rows_of : String → List SessionRow → ℕ
rows_of id rows = count (λ row. str_eq id (SessionRow.thread_id row)) rows

same_seen :
    (id other : String) (seen : List String)
    → str_eq id other ≡ true
    → contains id seen ≡ contains other seen
same_seen id other seen e = ap (λ x. contains x seen) ((eq_iff id other).0 e)

module _ {F : Type 0} (get_state : String → Snapshot F) where
  session_row-thread :
      (id : String) (snapshot : Snapshot F) → SessionRow.thread_id (session_row id snapshot) ≡ id
  unfolding session_row
  session_row-thread id absent = refl
  session_row-thread id (complete s) = refl
  session_row-thread id (paused s) = refl
  session_row-thread id (unfinished node s) = refl

  list_unseen-once :
      (id : String) (seen ids : List String)
      → rows_of id (list_unseen get_state seen ids)
        ≡ (if contains id ids && not (contains id seen) then 1 else 0)
  unfolding list_unseen
  list_unseen-once id seen [] = refl
  list_unseen-once id seen (other ∷ ids) = elim (Bool-cases (contains other seen)) [
    | inl h ↦
        rw (h, list_unseen)
          (list_unseen-once id seen ids ∙ ground (arith, h, same_seen id other seen))
    | inr h ↦
        rw (h, list_unseen) ground
          (
            arith,
            h,
            same_seen id other seen,
            session_row-thread other (get_state other),
            list_unseen-once id (other ∷ seen) ids,
          )
  ]

  -- Over any checkpoints, in any order: a thread with a checkpoint has one row in the listing, and any
  -- other thread has none.
  pub list_sessions-once :
      (id : String) (ids : List String)
      → rows_of id (list_sessions get_state ids) ≡ (if contains id ids then 1 else 0)
  unfolding list_sessions
  list_sessions-once id ids = list_unseen-once id [] ids ∙ ground (arith)
