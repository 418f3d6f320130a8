-- ===== src/Interviews/Requests.antt =====
-- What one request changes: the rows of its user, the free session, and the end of a voice loop whose
-- session was ended by a request before.
use interviewcraft.Prelude.{
  ℕ, String, ◌≡◌, refl, ap, ◌∙◌, ◌≢◌, inl, inr, Bool, true, false, Option, none, some, List, [],
  ◌∷◌, ◌++◌, arith, ◌==ℕ◌, Bool-cases, length, ℤ, nat_eq, string_eq, ==_refl, IsDistinct, contains,
  Dict, has_key,
}
use interviewcraft.Delivery.{Turn}
use interviewcraft.Interviews.{
  InterviewSession, SessionCreate, Ending, is_active_status, of_user, save, remove, create_session,
  end_session, delete_session, finalize_session, ended, deleted, get_owned_session, finalized,
  is_owned, new_session, status_of, routed_type, is_refused, byok_required,
}
use interviewcraft.Interviews.Rows.{ids}
use interviewcraft.Auth.Users.{ok}

pub found-listed :
    (session_id user_id : ℕ) (table : List InterviewSession) (s : InterviewSession)
    → get_owned_session session_id user_id table ≡ some s
    → (s.id ≡ session_id) × (s.user_id ≡ user_id) × (contains session_id (ids table) ≡ true)
unfolding get_owned_session
found-listed session_id user_id [] s e = cc
found-listed session_id user_id (r ∷ table) s e =
    ground (arith, found-listed session_id user_id table s)

save-absent :
    (s : InterviewSession) (table : List InterviewSession)
    → contains s.id (ids table) ≡ false
    → save s table ≡ table
unfolding save
save-absent s [] h = refl
save-absent s (r ∷ table) h = ground (arith, save-absent s table)

remove-absent_row :
    (id : ℕ) (table : List InterviewSession)
    → contains id (ids table) ≡ false
    → remove id table ≡ table
unfolding remove
remove-absent_row id [] h = refl
remove-absent_row id (r ∷ table) h = ground (arith, remove-absent_row id table)

-- A row found by its owner, written or removed, is none of another user's.
save-of_user :
    (session_id user_id v : ℕ) (table : List InterviewSession) (s s' : InterviewSession)
    → IsDistinct (ids table)
    → get_owned_session session_id user_id table ≡ some s
    → s'.id ≡ s.id
    → s'.user_id ≡ s.user_id
    → user_id ≢ v
    → of_user v (save s' table) ≡ of_user v table
unfolding save get_owned_session
save-of_user session_id user_id v [] s s' d e i o ne = refl
save-of_user session_id user_id v (r ∷ table) s s' d e i o ne =
    elim (Bool-cases (is_owned session_id user_id r)) [
      | inl y ↦
          let same : some r ≡ some s = rw y at e in ground (arith, save-absent s' table, d, same)
      | inr n ↦
          let e' : get_owned_session session_id user_id table ≡ some s = rw n at e in
          ground (
            arith,
            found-listed session_id user_id table s e',
            d,
            save-of_user session_id user_id v table s s' d.1 e' i o ne,
          )
    ]

remove-of_user :
    (session_id user_id v : ℕ) (table : List InterviewSession) (s : InterviewSession)
    → IsDistinct (ids table)
    → get_owned_session session_id user_id table ≡ some s
    → user_id ≢ v
    → of_user v (remove s.id table) ≡ of_user v table
unfolding remove get_owned_session
remove-of_user session_id user_id v [] s d e ne = refl
remove-of_user session_id user_id v (r ∷ table) s d e ne =
    elim (Bool-cases (is_owned session_id user_id r)) [
      | inl y ↦
          let same : some r ≡ some s = rw y at e in
          ground (arith, remove-absent_row s.id table, d, same)
      | inr n ↦
          let e' : get_owned_session session_id user_id table ≡ some s = rw n at e in
          ground (
            arith,
            found-listed session_id user_id table s e',
            d,
            remove-of_user session_id user_id v table s d.1 e' ne,
          )
    ]

append-of_user :
    (v : ℕ) (table : List InterviewSession) (s : InterviewSession)
    → s.user_id ≢ v
    → of_user v (table ++ (s ∷ [])) ≡ of_user v table
append-of_user v [] s ne = ground arith
append-of_user v (r ∷ table) s ne = ground (arith, append-of_user v table s ne)

create-of_user :
    (id now user_id v : ℕ) (has_platform_key : Bool) (byok : Dict String String)
    (body : SessionCreate) (table : List InterviewSession)
    → user_id ≢ v
    → of_user v (create_session id now has_platform_key byok body user_id table).1 ≡ of_user v table
unfolding create_session
create-of_user id now user_id v has_platform_key byok body table ne =
    let session_count = length (of_user user_id table) in
    let s = new_session id now user_id (routed_type session_count body.type) body in
    elim (Bool-cases (is_refused session_count has_platform_key byok)) [
      | inl y ↦ rw y refl
      | inr n ↦ rw n (append-of_user v table s ne)
    ]

ended-of_user :
    (now : ℕ) (ending : Ending) (session_id user_id v : ℕ) (found : Option InterviewSession)
    (table : List InterviewSession)
    → IsDistinct (ids table)
    → get_owned_session session_id user_id table ≡ found
    → user_id ≢ v
    → of_user v (ended now ending found table).1 ≡ of_user v table
unfolding ended
ended-of_user now ending session_id user_id v none table d e ne = refl
ended-of_user now ending session_id user_id v (some s) table d e ne =
    elim (Bool-cases (is_active_status s.status)) [
      | inl y ↦ rw y (
          save-of_user session_id user_id v table s
            (record s { status = status_of ending; ended_at = some now }) d e refl refl ne)
      | inr n ↦ rw n refl
    ]

deleted-of_user :
    (session_id user_id v : ℕ) (found : Option InterviewSession) (table : List InterviewSession)
    → IsDistinct (ids table)
    → get_owned_session session_id user_id table ≡ found
    → user_id ≢ v
    → of_user v (deleted found table).1 ≡ of_user v table
unfolding deleted
deleted-of_user session_id user_id v none table d e ne = refl
deleted-of_user session_id user_id v (some s) table d e ne =
    elim (Bool-cases (is_active_status s.status)) [
      | inl y ↦ rw y refl
      | inr n ↦ rw n (remove-of_user session_id user_id v table s d e ne)
    ]

-- In a table with distinct identifiers, the requests of a user, to create a session, to end one or to
-- delete one, of whatever identifier, leave the sessions of every other user as they were.
pub others_kept :
    (table : List InterviewSession) (user_id v : ℕ)
    → IsDistinct (ids table)
    → user_id ≢ v
    → ((id now : ℕ) (has_platform_key : Bool) (byok : Dict String String) (body : SessionCreate)
        → of_user v (create_session id now has_platform_key byok body user_id table).1
          ≡ of_user v table)
      × ((now : ℕ) (ending : Ending) (session_id : ℕ)
          → of_user v (end_session now ending session_id user_id table).1 ≡ of_user v table)
      × ((session_id : ℕ) → of_user v (delete_session session_id user_id table).1 ≡ of_user v table)
unfolding end_session delete_session
others_kept table user_id v d ne = (
  λ id now has_platform_key byok body.
      create-of_user id now user_id v has_platform_key byok body table ne,
  λ now ending session_id.
      ended-of_user now ending session_id user_id v (get_owned_session session_id user_id table)
        table d refl ne,
  λ session_id.
      deleted-of_user session_id user_id v (get_owned_session session_id user_id table) table d refl
        ne,
)

-- The only session of a user is found by its identifier.
only-found :
    (user_id : ℕ) (table : List InterviewSession) (s : InterviewSession)
    → of_user user_id table ≡ s ∷ []
    → get_owned_session s.id user_id table ≡ some s
unfolding get_owned_session
only-found user_id [] s e = absurd cc
only-found user_id (r ∷ table) s e = elim (Bool-cases (r.user_id ==ℕ user_id)) [
  | inl y ↦ let same : r ∷ of_user user_id table ≡ s ∷ [] = rw y at e in ground (arith, same)
  | inr n ↦
      let rest : of_user user_id table ≡ s ∷ [] = rw n at e in
      ground (arith, only-found user_id table s rest)
]

of_user-remove :
    (user_id id : ℕ) (table : List InterviewSession)
    → of_user user_id (remove id table) ≡ remove id (of_user user_id table)
unfolding remove
of_user-remove user_id id [] = refl
of_user-remove user_id id (r ∷ table) = ground (arith, of_user-remove user_id id table)

only-removed :
    (user_id : ℕ) (table : List InterviewSession) (s : InterviewSession)
    → of_user user_id table ≡ s ∷ []
    → of_user user_id (remove s.id table) ≡ []
only-removed user_id table s e =
    of_user-remove user_id s.id table
    ∙ ap (λ l. remove s.id l) e
    ∙ (unfold remove in ground (arith, ==_refl s.id))

deleted_over :
    (s : InterviewSession) (found : Option InterviewSession) (table : List InterviewSession)
    → found ≡ some s
    → is_active_status s.status ≡ false
    → (deleted found table).1 ≡ remove s.id table
unfolding deleted
deleted_over s found table f o = rw (f, o) refl

-- Without a key of their own, on a platform without one, a user whose only session is over is refused a
-- second one, and nothing changes; once that session is deleted, the same request creates another free one,
-- a diagnostic one again.
pub create-delete_session :
    (id now user_id : ℕ) (byok : Dict String String) (body : SessionCreate)
    (table : List InterviewSession) (s : InterviewSession)
    → of_user user_id table ≡ s ∷ []
    → is_active_status s.status ≡ false
    → has_key "anthropic" byok ≡ false
    → let after = (delete_session s.id user_id table).1 in
      let again = new_session id now user_id "diagnostic" body in
      (create_session id now false byok body user_id table ≡ (byok_required, table))
      × (create_session id now false byok body user_id after ≡ (ok again, after ++ (again ∷ [])))
unfolding create_session is_refused routed_type delete_session
create-delete_session id now user_id byok body table s only over key =
    let gone : of_user user_id (delete_session s.id user_id table).1 ≡ [] =
      ap (λ t. of_user user_id t)
        (deleted_over s (get_owned_session s.id user_id table) table
          (only-found user_id table s only) over)
      ∙ only-removed user_id table s only in
    (rw (only, key) refl, rw gone refl)

-- The same row, whichever of its columns are written.
pub found-save :
    (session_id user_id : ℕ) (table : List InterviewSession) (s s' : InterviewSession)
    → get_owned_session session_id user_id table ≡ some s
    → s'.id ≡ s.id
    → s'.user_id ≡ s.user_id
    → get_owned_session session_id user_id (save s' table) ≡ some s'
unfolding save get_owned_session
found-save session_id user_id [] s s' e i o = cc
found-save session_id user_id (r ∷ table) s s' e i o = elim (Bool-cases (r.id ==ℕ s'.id)) [
  | inl y ↦ ground (arith, found-listed session_id user_id (r ∷ table) s e)
  | inr n ↦
      let at = found-listed session_id user_id (r ∷ table) s e in
      let other : (r.id ==ℕ session_id) ≡ false = ground (arith, at) in
      let e' : get_owned_session session_id user_id table ≡ some s = rw other at e in
      rw (n, other) (found-save session_id user_id table s s' e' i o)
]

found-finalize :
    (now : ℕ) (transcript : List Turn) (cost : ℤ) (session_id user_id : ℕ)
    (table : List InterviewSession) (s : InterviewSession)
    → get_owned_session session_id user_id table ≡ some s
    → get_owned_session session_id user_id (finalize_session now transcript cost session_id table)
      ≡ some (finalized now transcript cost s)
unfolding finalize_session get_owned_session
found-finalize now transcript cost session_id user_id [] s e = cc
found-finalize now transcript cost session_id user_id (r ∷ table) s e =
    ground (arith, found-finalize now transcript cost session_id user_id table s)

ended_found :
    (now : ℕ) (ending : Ending) (s : InterviewSession) (found : Option InterviewSession)
    (table : List InterviewSession)
    → found ≡ some s
    → is_active_status s.status ≡ true
    → (ended now ending found table).1
      ≡ save (record s { status = status_of ending; ended_at = some now }) table
unfolding ended
ended_found now ending s found table f a = rw (f, a) refl

-- An active session that its owner ends during its voice loop has that status and that moment only until
-- the loop is over: then it is completed, at the moment and with the cost of the loop, though it was
-- abandoned.
pub finalize-end_session :
    (now later : ℕ) (ending : Ending) (transcript : List Turn) (cost : ℤ) (session_id user_id : ℕ)
    (table : List InterviewSession) (s : InterviewSession)
    → get_owned_session session_id user_id table ≡ some s
    → is_active_status s.status ≡ true
    → let after = (end_session now ending session_id user_id table).1 in
      (get_owned_session session_id user_id after
        ≡ some (record s { status = status_of ending; ended_at = some now }))
      × (get_owned_session session_id user_id
            (finalize_session later transcript cost session_id after)
          ≡ some (finalized later transcript cost s))
unfolding end_session
finalize-end_session now later ending transcript cost session_id user_id table s f a =
    let s' : InterviewSession = record s { status = status_of ending; ended_at = some now } in
    let saved = ended_found now ending s (get_owned_session session_id user_id table) table f a in
    let at =
      ap (λ t. get_owned_session session_id user_id t) saved
      ∙ found-save session_id user_id table s s' f refl refl in
    (
      at,
      found-finalize later transcript cost session_id user_id
          (end_session now ending session_id user_id table).1 s' at,
    )
