-- ===== src/Accounts/Keys.antt =====
-- The keys that a user stores, and what a session reads of them.
use interviewcraft.Prelude.{
  String, ◌≡◌, refl, sym, ap, ◌∙◌, subst, inl, inr, Bool, true, false, Option, none, some, get_or,
  [], ◌∷◌, arith, if◌then◌else◌, Bool-cases, Option-cases, ◌==◌, nat_eq, string_eq, ==_refl,
  contains, Dict, lookup, has_key, lookup-insert, lookup-has_key, IsKeyed, insert-IsKeyed, is_empty,
}
use interviewcraft.Voice.Providers.{supported_providers, decrypt_byok_keys}
use interviewcraft.Accounts.{
  Keyring, ByokUpdate, Account, updates_of, update_key, update_keys, stored_keys, upsert_byok_keys,
  Keyring, ByokUpdate, Account, updates_of, pop, update_key, update_keys, stored_keys,
  upsert_byok_keys,
}

-- What a session reads of a stored entry.
abbrev pub readable : Option String → Option String
readable none = none
readable (some plaintext) = if is_empty plaintext then none else some plaintext

abbrev opened : (String → Option String) → Option String → Option String
opened decrypt none = none
opened decrypt (some encrypted) = readable (decrypt encrypted)

-- One entry before the others, if its provider is supported.
abbrev kept_entry : Bool → Option String → String → Dict String String → Dict String String
kept_entry false o q rest = rest
kept_entry true none q rest = rest
kept_entry true (some t) q rest = if is_empty t then rest else (q, t) ∷ rest

decrypt-cons :
    (decrypt : String → Option String) (q e : String) (keys : Dict String String)
    → decrypt_byok_keys decrypt ((q, e) ∷ keys)
      ≡ kept_entry (contains q supported_providers) (decrypt e) q (decrypt_byok_keys decrypt keys)
unfolding decrypt_byok_keys
decrypt-cons decrypt q e keys = elim (Bool-cases (contains q supported_providers)) [
  | inl y ↦ elim (Option-cases (decrypt e)) [
    | inl none_at ↦ rw (y, none_at) refl
    | inr (t, some_at) ↦ rw (y, some_at) refl
  ]
  | inr n ↦ rw n refl
]

lookup-kept_other :
    (b : Bool) (o : Option String) (p q : String) (rest : Dict String String)
    → (p == q) ≡ false
    → lookup p (kept_entry b o q rest) ≡ lookup p rest
lookup-kept_other false o p q rest h = refl
lookup-kept_other true none p q rest h = refl
lookup-kept_other true (some t) p q rest h = ground (arith, h)

lookup-kept_same :
    (b : Bool) (o : Option String) (q : String) (rest : Dict String String)
    → lookup q rest ≡ none
    → lookup q (kept_entry b o q rest) ≡ (if b then readable o else none)
lookup-kept_same false o q rest h = h
lookup-kept_same true none q rest h = h
lookup-kept_same true (some t) q rest h = ground (arith, h, ==_refl q)

absent-decrypt :
    (decrypt : String → Option String) (p : String) (keys : Dict String String)
    → has_key p keys ≡ false
    → lookup p (decrypt_byok_keys decrypt keys) ≡ none
absent-decrypt decrypt p [] h = unfold decrypt_byok_keys in refl
absent-decrypt decrypt p ((q, e) ∷ keys) h =
    let (other, later) : ((p == q) ≡ false) × (has_key p keys ≡ false) =
      (ground (arith, h), ground (arith, h)) in
    ap (λ d. lookup p d) (decrypt-cons decrypt q e keys)
    ∙ (lookup-kept_other (contains q supported_providers) (decrypt e) p q
          (decrypt_byok_keys decrypt keys) other
        ∙ absent-decrypt decrypt p keys later)

-- A key is readable under a provider exactly if the provider is supported and the stored text decrypts.
lookup-decrypt :
    (decrypt : String → Option String) (p : String) (keys : Dict String String)
    → IsKeyed keys
    → lookup p (decrypt_byok_keys decrypt keys)
      ≡ (if contains p supported_providers then opened decrypt (lookup p keys) else none)
lookup-decrypt decrypt p [] h = unfold decrypt_byok_keys in ground arith
lookup-decrypt decrypt p ((q, e) ∷ keys) h =
    ap (λ d. lookup p d) (decrypt-cons decrypt q e keys) ∙ elim (Bool-cases (p == q)) [
      | inl y ↦
          let rest = decrypt_byok_keys decrypt keys in
          let entry = kept_entry (contains q supported_providers) (decrypt e) q rest in
          subst
            (λ x. lookup x entry ≡ (
              if contains x supported_providers
              then opened decrypt (lookup x ((q, e) ∷ keys))
              else none))
            (sym ((string_eq.same_iff p q).0 y))
            (lookup-kept_same (contains q supported_providers) (decrypt e) q rest
                (absent-decrypt decrypt q keys h.0)
              ∙ rw (==_refl q) refl)
      | inr n ↦
          lookup-kept_other (contains q supported_providers) (decrypt e) p q
            (decrypt_byok_keys decrypt keys) n
          ∙ (lookup-decrypt decrypt p keys h.1 ∙ rw n refl)
    ]

has_key-pop :
    (p q : String) (keys : Dict String String)
    → has_key p keys ≡ false
    → has_key p (pop q keys) ≡ false
unfolding pop
has_key-pop p q [] h = h
has_key-pop p q ((k, e) ∷ keys) h = ground (arith, has_key-pop p q keys)

pop-IsKeyed : (q : String) (keys : Dict String String) → IsKeyed keys → IsKeyed (pop q keys)
unfolding pop
pop-IsKeyed q [] h = h
pop-IsKeyed q ((k, e) ∷ keys) h = elim (Bool-cases (k == q)) [
  | inl y ↦ rw y (pop-IsKeyed q keys h.1)
  | inr n ↦ rw n (has_key-pop k q keys h.0, pop-IsKeyed q keys h.1)
]

lookup-pop :
    (p q : String) (keys : Dict String String)
    → lookup p (pop q keys) ≡ (if p == q then none else lookup p keys)
unfolding pop
lookup-pop p q [] = ground arith
lookup-pop p q ((k, e) ∷ keys) = ground (
  arith,
  string_eq.same_iff p q,
  string_eq.same_iff k q,
  string_eq.same_iff p k,
  lookup-pop p q keys,
)

update_key-IsKeyed :
    (kr : Keyring) (q : String) (raw : Option String) (byok : Dict String String)
    → IsKeyed byok
    → IsKeyed (update_key kr q raw byok)
unfolding update_key
update_key-IsKeyed kr q none byok h = h
update_key-IsKeyed kr q (some raw) byok h = elim (Bool-cases (is_empty raw)) [
  | inl y ↦ rw y (pop-IsKeyed q byok h)
  | inr n ↦ rw n (insert-IsKeyed q (kr.encrypt raw) byok h)
]

update_keys-IsKeyed :
    (kr : Keyring) (updates : Dict String (Option String)) (byok : Dict String String)
    → IsKeyed byok
    → IsKeyed (update_keys kr updates byok)
unfolding update_keys
update_keys-IsKeyed kr [] byok h = h
update_keys-IsKeyed kr ((q, raw) ∷ updates) byok h =
    update_keys-IsKeyed kr updates (update_key kr q raw byok) (update_key-IsKeyed kr q raw byok h)

-- What is read under a provider after an update: what was read before, nothing, or the new key.
abbrev pub renewed : Option (Option String) → Option String → Option String
renewed none old = old
renewed (some none) old = old
renewed (some (some raw)) old = readable (some raw)

abbrev read : Keyring → String → Dict String String → Option String
read kr p byok = if contains p supported_providers then opened kr.decrypt (lookup p byok) else none

pub get_or-stored_keys : (byok : Dict String String) → get_or (stored_keys byok) [] ≡ byok
unfolding stored_keys
get_or-stored_keys [] = refl
get_or-stored_keys (e ∷ byok) = refl

-- What a voice session reads of an account under a provider.
abbrev pub key_read : Keyring → String → Account → Option String
key_read kr p a = lookup p (decrypt_byok_keys kr.decrypt (get_or a.byok_keys []))

module _ (kr : Keyring) (fernet : (raw : String) → kr.decrypt (kr.encrypt raw) ≡ some raw) where
  read-update_key :
      (p q : String) (raw : Option String) (byok : Dict String String)
      → contains p supported_providers ≡ true
      → read kr p (update_key kr q raw byok)
        ≡ (if p == q then renewed (some raw) (read kr p byok) else read kr p byok)
  unfolding update_key
  read-update_key p q none byok c = ground arith
  read-update_key p q (some raw) byok c = rw c (elim (Bool-cases (is_empty raw)) [
    | inl y ↦ rw y (rw (lookup-pop p q byok) (ground arith))
    | inr n ↦ rw n (rw (lookup-insert q p (kr.encrypt raw) byok) (ground (arith, fernet raw)))
  ])

  read-update_keys :
      (p : String) (updates : Dict String (Option String)) (byok : Dict String String)
      → contains p supported_providers ≡ true
      → IsKeyed updates
      → read kr p (update_keys kr updates byok) ≡ renewed (lookup p updates) (read kr p byok)
  unfolding update_keys
  read-update_keys p [] byok c h = refl
  read-update_keys p ((q, raw) ∷ updates) byok c h =
      read-update_keys p updates (update_key kr q raw byok) c h.1
      ∙ (ap (λ o. renewed (lookup p updates) o) (read-update_key p q raw byok c)
          ∙ elim (Bool-cases (p == q)) [
            | inl y ↦
                let absent : has_key p updates ≡ false =
                  subst (λ x. has_key x updates ≡ false) (sym ((string_eq.same_iff p q).0 y)) h.0 in
                rw (y, lookup-has_key p updates absent) refl
            | inr n ↦ rw n refl
          ])

  -- If decryption undoes encryption, an update is what the next voice session reads: under each supported
  -- provider the key that was read before if the update has none for it, no key if it has an empty one, and
  -- otherwise the new key.
  pub decrypt-upsert_byok_keys :
      (body : ByokUpdate) (a : Account) (p : String)
      → IsKeyed (get_or a.byok_keys [])
      → contains p supported_providers ≡ true
      → key_read kr p (upsert_byok_keys kr body a).1
        ≡ renewed (lookup p (updates_of body)) (key_read kr p a)
  unfolding upsert_byok_keys
  decrypt-upsert_byok_keys body a p h c =
      let old = get_or a.byok_keys [] in
      let byok = update_keys kr (updates_of body) old in
      ap (λ d. lookup p (decrypt_byok_keys kr.decrypt d)) (get_or-stored_keys byok)
      ∙ (lookup-decrypt kr.decrypt p byok (update_keys-IsKeyed kr (updates_of body) old h)
          ∙ (read-update_keys p (updates_of body) old c (refl, (refl, (refl, (refl, tt))))
              ∙ ap (λ o. renewed (lookup p (updates_of body)) o)
                  (sym (lookup-decrypt kr.decrypt p old h))))
