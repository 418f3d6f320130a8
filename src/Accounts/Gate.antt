-- ===== src/Accounts/Gate.antt =====
-- The key that a session is created with, once the keys were updated.
use interviewcraft.Prelude.{
  ℕ, ◌≤◌, String, ◌≡◌, refl, ap, ◌∙◌, inl, inr, Bool, true, false, not, Option, none, some, get_or,
  List, [], ◌∷◌, ◌++◌, arith, if◌then◌else◌, Bool-cases, length, ◌==◌, nat_eq, string_eq, ==_refl,
  Dict, has_key, has_key-insert, is_empty,
}
use interviewcraft.Auth.Users.{ok}
use interviewcraft.Accounts.{
  Keyring, ByokUpdate, Account, updates_of, pop, update_key, update_keys, stored_keys,
  upsert_byok_keys,
}
use interviewcraft.Accounts.Keys.{get_or-stored_keys}
use interviewcraft.Interviews.{
  is_refused, routed_type, InterviewSession, SessionCreate, of_user, create_session, is_refused,
  routed_type, new_session, byok_required,
}

has_key-pop_other :
    (p q : String) (byok : Dict String String)
    → (p == q) ≡ false
    → has_key p (pop q byok) ≡ has_key p byok
unfolding pop
has_key-pop_other p q [] n = refl
has_key-pop_other p q ((k, e) ∷ byok) n = ground (
  arith,
  string_eq.same_iff k q,
  string_eq.same_iff p k,
  string_eq.same_iff p q,
  has_key-pop_other p q byok,
)

has_key-pop_self : (q : String) (byok : Dict String String) → has_key q (pop q byok) ≡ false
unfolding pop
has_key-pop_self q [] = refl
has_key-pop_self q ((k, e) ∷ byok) =
    ground (arith, string_eq.same_iff k q, string_eq.same_iff q k, has_key-pop_self q byok)

has_key-update_key :
    (kr : Keyring) (p q : String) (raw : Option String) (byok : Dict String String)
    → (p == q) ≡ false
    → has_key p (update_key kr q raw byok) ≡ has_key p byok
unfolding update_key
has_key-update_key kr p q none byok n = refl
has_key-update_key kr p q (some raw) byok n = elim (Bool-cases (is_empty raw)) [
  | inl y ↦ rw y (has_key-pop_other p q byok n)
  | inr m ↦ rw m (has_key-insert q p (kr.encrypt raw) byok ∙ rw n refl)
]

has_key-update_self :
    (kr : Keyring) (q raw : String) (byok : Dict String String)
    → has_key q (update_key kr q (some raw) byok) ≡ not (is_empty raw)
unfolding update_key
has_key-update_self kr q raw byok = elim (Bool-cases (is_empty raw)) [
  | inl y ↦ rw y (has_key-pop_self q byok)
  | inr m ↦ rw m (has_key-insert q q (kr.encrypt raw) byok ∙ rw (==_refl q) refl)
]

has_anthropic :
    (kr : Keyring) (body : ByokUpdate) (raw : String) (byok : Dict String String)
    → body.anthropic ≡ some raw
    → has_key "anthropic" (update_keys kr (updates_of body) byok) ≡ not (is_empty raw)
unfolding update_keys
has_anthropic kr body raw byok e =
    let b1 = update_key kr "anthropic" body.anthropic byok in
    let b2 = update_key kr "openai" body.openai b1 in
    let b3 = update_key kr "deepgram" body.deepgram b2 in
    has_key-update_key kr "anthropic" "elevenlabs" body.elevenlabs b3 refl
    ∙ (has_key-update_key kr "anthropic" "deepgram" body.deepgram b2 refl
        ∙ (has_key-update_key kr "anthropic" "openai" body.openai b1 refl
            ∙ (ap (λ o. has_key "anthropic" (update_key kr "anthropic" o byok)) e
                ∙ has_key-update_self kr "anthropic" raw byok)))

gate :
    (id now user_id : ℕ) (byok : Dict String String) (request : SessionCreate)
    (table : List InterviewSession) (removed : Bool)
    → has_key "anthropic" byok ≡ not removed
    → 1 ≤ length (of_user user_id table)
    → let s = new_session id now user_id request.type request in
      create_session id now false byok request user_id table
      ≡ (if removed then (byok_required, table) else (ok s, table ++ (s ∷ [])))
unfolding create_session is_refused routed_type
gate id now user_id byok request table true k n = ground (arith, k, n)
gate id now user_id byok request table false k n = ground (arith, k, n)

-- On a platform without a key, a user who had a session before can create another one right after storing an
-- Anthropic key, and is refused one right after removing it.
pub create_session-upsert_byok_keys :
    (kr : Keyring) (body : ByokUpdate) (raw : String) (a : Account) (id now user_id : ℕ)
    (request : SessionCreate) (table : List InterviewSession)
    → body.anthropic ≡ some raw
    → 1 ≤ length (of_user user_id table)
    → let byok = get_or (Account.byok_keys (upsert_byok_keys kr body a).1) [] in
      let s = new_session id now user_id request.type request in
      create_session id now false byok request user_id table
      ≡ (if is_empty raw then (byok_required, table) else (ok s, table ++ (s ∷ [])))
unfolding upsert_byok_keys create_session is_refused routed_type
create_session-upsert_byok_keys kr body raw a id now user_id request table e n =
    let old = get_or a.byok_keys [] in
    let byok = update_keys kr (updates_of body) old in
    let key : has_key "anthropic" (get_or (stored_keys byok) []) ≡ not (is_empty raw) =
      ap (λ d. has_key "anthropic" d) (get_or-stored_keys byok) ∙ has_anthropic kr body raw old e in
    gate id now user_id (get_or (stored_keys byok) []) request table (is_empty raw) key n
