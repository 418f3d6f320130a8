-- ===== src/Interviews/Rows.antt =====
-- What the requests and the voice loops keep of the table of sessions.
use interviewcraft.Prelude.{
  ℕ, String, ◌≡◌, refl, sym, ap, subst, inl, inr, Bool, true, false, not, Option, none, some, List,
  [], ◌∷◌, ◌++◌, map, arith, ◌==ℕ◌, if◌then◌else◌, ==ℕ_iff, Bool-cases, length, filter, All,
  All-append, ℤ, nat_eq, string_eq, ==_refl, IsDistinct, IsDistinct-append_one, contains, Dict,
}
use interviewcraft.Delivery.{Turn}
use interviewcraft.Interviews.{
  save_transcript, InterviewSession, SessionCreate, Ending, complete, abandon, is_active_status,
  of_user, save, remove, create_session, finalize_session, ended, deleted, finalized, new_session,
  status_of, routed_type, is_refused,
}

abbrev pub ids : List InterviewSession → List ℕ
ids table = map (λ s. InterviewSession.id s) table

abbrev pub is_none : Option ℕ → Bool
is_none none = true
is_none (some n) = false

-- A row is active until it has its end.
abbrev pub IsDated : InterviewSession → Type 0
IsDated s = is_active_status s.status ≡ is_none s.ended_at

abbrev pub IsUsed : List ℕ → InterviewSession → Type 0
IsUsed used s = contains s.id used ≡ true

-- The identifiers of the rows are distinct and were drawn, and each row is active until it has its end.
abbrev pub IsTable : List ℕ → List InterviewSession → Type 0
IsTable used table = IsDistinct (ids table) × All (IsUsed used) table × All IsDated table

-- An update of rows that keeps their identifiers and keeps them dated keeps the table.
module _ (f : InterviewSession → InterviewSession)
    (same_id : (s : InterviewSession) → (f s).id ≡ s.id) where
  map-ids : (table : List InterviewSession) → ids (map f table) ≡ ids table
  map-ids [] = refl
  map-ids (s ∷ table) = rw (same_id s) (ap (λ l. s.id ∷ l) (map-ids table))

  map-IsUsed :
      (used : List ℕ) (table : List InterviewSession)
      → All (IsUsed used) table
      → All (IsUsed used) (map f table)
  map-IsUsed used [] h = h
  map-IsUsed used (s ∷ table) h = (rw (same_id s) h.0, map-IsUsed used table h.1)

  map-IsDated :
      (table : List InterviewSession)
      → ((s : InterviewSession) → IsDated s → IsDated (f s))
      → All IsDated table
      → All IsDated (map f table)
  map-IsDated [] d h = h
  map-IsDated (s ∷ table) d h = (d s h.0, map-IsDated table d h.1)

  map-IsTable :
      (used : List ℕ) (table after : List InterviewSession)
      → ((s : InterviewSession) → IsDated s → IsDated (f s))
      → after ≡ map f table
      → IsTable used table
      → IsTable used after
  map-IsTable used table after dated e (d, u, t) = rw e (
    subst (λ l. IsDistinct l) (sym (map-ids table)) d,
    map-IsUsed used table u,
    map-IsDated table dated t,
  )

-- The row with the identifier changed.
abbrev at_id : ℕ → (InterviewSession → InterviewSession) → InterviewSession → InterviewSession
at_id id change r = if r.id ==ℕ id then change r else r

save_lem :
    (s : InterviewSession) (table : List InterviewSession)
    → save s table ≡ map (at_id s.id (λ r. s)) table
unfolding save
save_lem s [] = refl
save_lem s (r ∷ table) = ap (λ l. at_id s.id (λ r. s) r ∷ l) (save_lem s table)

pub save-IsTable :
    (used : List ℕ) (s : InterviewSession) (table : List InterviewSession)
    → IsDated s
    → IsTable used table
    → IsTable used (save s table)
save-IsTable used s table st h =
    map-IsTable (at_id s.id (λ r. s)) (λ r. ground arith) used table (save s table)
      (λ r d. ground arith) (save_lem s table) h

finalize_session_lem :
    (now : ℕ) (transcript : List Turn) (cost : ℤ) (session_id : ℕ) (table : List InterviewSession)
    → finalize_session now transcript cost session_id table
      ≡ map (at_id session_id (finalized now transcript cost)) table
unfolding finalize_session
finalize_session_lem now transcript cost session_id [] = refl
finalize_session_lem now transcript cost session_id (s ∷ table) =
    ap (λ l. at_id session_id (finalized now transcript cost) s ∷ l)
      (finalize_session_lem now transcript cost session_id table)

pub finalize-IsTable :
    (used : List ℕ) (now : ℕ) (transcript : List Turn) (cost : ℤ) (session_id : ℕ)
    (table : List InterviewSession)
    → IsTable used table
    → IsTable used (finalize_session now transcript cost session_id table)
finalize-IsTable used now transcript cost session_id table h =
    map-IsTable (at_id session_id (finalized now transcript cost)) (λ r. ground arith) used table _
      (λ r d. ground arith) (finalize_session_lem now transcript cost session_id table) h

abbrev recorded : List Turn → InterviewSession → InterviewSession
recorded transcript s = record s { transcript = transcript }

save_transcript_lem :
    (transcript : List Turn) (session_id : ℕ) (table : List InterviewSession)
    → save_transcript transcript session_id table
      ≡ map (at_id session_id (recorded transcript)) table
unfolding save_transcript
save_transcript_lem transcript session_id [] = refl
save_transcript_lem transcript session_id (s ∷ table) =
    ap (λ l. at_id session_id (recorded transcript) s ∷ l)
      (save_transcript_lem transcript session_id table)

pub transcript-IsTable :
    (used : List ℕ) (transcript : List Turn) (session_id : ℕ) (table : List InterviewSession)
    → IsTable used table
    → IsTable used (save_transcript transcript session_id table)
transcript-IsTable used transcript session_id table h =
    map-IsTable (at_id session_id (recorded transcript)) (λ r. ground arith) used table _
      (λ r d. ground arith) (save_transcript_lem transcript session_id table) h

used-absent :
    (used : List ℕ) (id : ℕ) (table : List InterviewSession)
    → contains id used ≡ false
    → All (IsUsed used) table
    → contains id (ids table) ≡ false
used-absent used id [] fresh h = refl
used-absent used id (s ∷ table) fresh h = elim (Bool-cases (id ==ℕ s.id)) [
  | inl y ↦ absurd (
      let e : id ≡ s.id = (==ℕ_iff id s.id).0 y in
      let t : contains id used ≡ true = subst (λ k. contains k used ≡ true) (sym e) h.0 in
      ground (arith, t, fresh))
  | inr n ↦ rw n (used-absent used id table fresh h.1)
]

IsUsed-more :
    (id : ℕ) (used : List ℕ) (table : List InterviewSession)
    → All (IsUsed used) table
    → All (IsUsed (id ∷ used)) table
IsUsed-more id used [] h = h
IsUsed-more id used (s ∷ table) h = (ground (arith, h.0), IsUsed-more id used table h.1)

ids-append_one :
    (table : List InterviewSession) (s : InterviewSession)
    → ids (table ++ (s ∷ [])) ≡ ids table ++ (s.id ∷ [])
ids-append_one [] s = refl
ids-append_one (r ∷ table) s = ap (λ l. r.id ∷ l) (ids-append_one table s)

-- A fresh row that is active and has no end, or has an end and is not active.
pub append-IsTable :
    (used : List ℕ) (s : InterviewSession) (table : List InterviewSession)
    → contains s.id used ≡ false
    → IsDated s
    → IsTable used table
    → IsTable (s.id ∷ used) (table ++ (s ∷ []))
append-IsTable used s table fresh dated (d, u, t) = (
  subst (λ l. IsDistinct l) (sym (ids-append_one table s))
      (IsDistinct-append_one s.id (ids table) d (used-absent used s.id table fresh u)),
  All-append (IsUsed (s.id ∷ used)) table (s ∷ []) (IsUsed-more s.id used table u)
      (ground (arith, ==_refl s.id)),
  All-append IsDated table (s ∷ []) t (dated, tt),
)

pub create-IsTable :
    (used : List ℕ) (id now user_id : ℕ) (has_platform_key : Bool) (byok : Dict String String)
    (body : SessionCreate) (table : List InterviewSession)
    → contains id used ≡ false
    → IsTable used table
    → IsTable (id ∷ used) (create_session id now has_platform_key byok body user_id table).1
unfolding create_session
create-IsTable used id now user_id has_platform_key byok body table fresh (d, u, t) =
    let session_count = length (of_user user_id table) in
    let s = new_session id now user_id (routed_type session_count body.type) body in
    elim (Bool-cases (is_refused session_count has_platform_key byok)) [
      | inl y ↦ rw y (d, IsUsed-more id used table u, t)
      | inr n ↦ rw n (append-IsTable used s table fresh refl (d, u, t))
    ]

-- A filter of the rows, as in the deletion of a user.
filter-absent :
    (p : InterviewSession → Bool) (k : ℕ) (table : List InterviewSession)
    → contains k (ids table) ≡ false
    → contains k (ids (filter p table)) ≡ false
filter-absent p k [] h = refl
filter-absent p k (s ∷ table) h = ground (arith, filter-absent p k table)

filter-IsDistinct :
    (p : InterviewSession → Bool) (table : List InterviewSession)
    → IsDistinct (ids table)
    → IsDistinct (ids (filter p table))
filter-IsDistinct p [] h = h
filter-IsDistinct p (s ∷ table) h = elim (Bool-cases (p s)) [
  | inl y ↦ rw y (filter-absent p s.id table h.0, filter-IsDistinct p table h.1)
  | inr n ↦ rw n (filter-IsDistinct p table h.1)
]

filter-All :
    (P : InterviewSession → Type 0) (p : InterviewSession → Bool) (table : List InterviewSession)
    → All P table
    → All P (filter p table)
filter-All P p [] h = h
filter-All P p (s ∷ table) h = elim (Bool-cases (p s)) [
  | inl y ↦ rw y (h.0, filter-All P p table h.1)
  | inr n ↦ rw n (filter-All P p table h.1)
]

pub filter-IsTable :
    (used : List ℕ) (p : InterviewSession → Bool) (table : List InterviewSession)
    → IsTable used table
    → IsTable used (filter p table)
filter-IsTable used p table (d, u, t) =
    (filter-IsDistinct p table d, filter-All (IsUsed used) p table u, filter-All IsDated p table t)

pub not_active : (ending : Ending) → is_active_status (status_of ending) ≡ false
not_active complete = refl
not_active abandon = refl

pub ended-IsTable :
    (used : List ℕ) (now : ℕ) (ending : Ending) (found : Option InterviewSession)
    (table : List InterviewSession)
    → IsTable used table
    → IsTable used (ended now ending found table).1
unfolding ended
ended-IsTable used now ending none table h = h
ended-IsTable used now ending (some s) table h = elim (Bool-cases (is_active_status s.status)) [
  | inl y ↦ rw y (
      save-IsTable used (record s { status = status_of ending; ended_at = some now }) table
        (not_active ending) h)
  | inr n ↦ rw n h
]

pub deleted-IsTable :
    (used : List ℕ) (found : Option InterviewSession) (table : List InterviewSession)
    → IsTable used table
    → IsTable used (deleted found table).1
unfolding deleted remove
deleted-IsTable used none table h = h
deleted-IsTable used (some s) table (d, u, t) = elim (Bool-cases (is_active_status s.status)) [
  | inl y ↦ rw y (d, u, t)
  | inr n ↦ rw n (filter-IsTable used (λ r. not (r.id ==ℕ s.id)) table (d, u, t))
]
