-- ===== src/Session/Valid.antt =====
-- The invariant of the session store: every session stands under its own id, which is a generated
-- one, and no operation of internal/session/session.go breaks that.
use locksmith.Common.{
  ℕ, ◌+◌, ◌/◌, ◌%◌, ◌<◌, ◌≡◌, refl, ap, subst, List, [], ◌∷◌, ◌++◌, inl, inr, none, some, ok, arith,
  length, All, map, Bool-cases, Option-cases, Result-cases,
}
use locksmith.Common.Int.{ℤ}
use locksmith.Common.Text.{Text, codes, text_eq, text_eq_iff, to_lower, to_lower_byte}
use locksmith.Common.Assoc.{
  Map, lookup, insert, delete, DistinctKeys, HasNoKey, DistinctKeys-insert, DistinctKeys-delete,
}
use locksmith.Session.{
  Session, Store, hex_digit, hex_encode, generate_id, create_with, create, is_expired, Found,
  missing, stale, live, get_read, remove_session, get_expire, get, delete_found, delete_session,
  get_by_mask, cache_secret, cleanup, Call, creates, gets, expires, deletes, caches, cleans, step,
  run,
}
use locksmith.Session.Wiping.{unexpired, cleanup-Cleaned}

-- rand.Read fills a buffer of sessionIDBytes bytes.
abbrev pub IsRandom : Text → Type 0
IsRandom b = (length b ≡ 32) × All (λ c. c < 256) b

-- "ls_" and 64 lower-case hexadecimal digits.
abbrev pub IsEntry : Text × Session → Type 0
IsEntry (k, sess) = (sess.id ≡ k) × (length k ≡ 67) × (to_lower k ≡ k)

pub record IsValid (s : Store) : Type 0 where
  pub distinct : DistinctKeys s.sessions
  pub entries : All IsEntry s.sessions

length-hex_encode : (b : Text) → length (hex_encode b) ≡ length b + length b
unfolding hex_encode
length-hex_encode [] = refl
length-hex_encode (c ∷ cs) = omega (arith, length-hex_encode cs)

hex_digit-lower : (n : ℕ) → n < 16 → to_lower_byte (hex_digit n) ≡ hex_digit n
unfolding to_lower_byte hex_digit
hex_digit-lower n h = ground arith

hex_encode-lower :
    (b : Text) → All (λ c. c < 256) b → map to_lower_byte (hex_encode b) ≡ hex_encode b
unfolding hex_encode
hex_encode-lower [] h = refl
hex_encode-lower (c ∷ cs) h = cc (
  hex_digit-lower (c / 16) (omega arith),
  hex_digit-lower (c % 16) (omega arith),
  hex_encode-lower cs h.1,
)

generated-lower :
    (b : Text) → IsRandom b → to_lower (codes "ls_" ++ hex_encode b) ≡ codes "ls_" ++ hex_encode b
unfolding to_lower to_lower_byte
generated-lower b h = ap (λ t. b'l' ∷ b's' ∷ b'_' ∷ t) (hex_encode-lower b h.1)

-- An id that is generated from random bytes is 67 characters long and in lower case.
pub generate_id-IsEntry :
    (b id : Text)
    → IsRandom b
    → generate_id (some b) ≡ ok id
    → (length id ≡ 67) × (to_lower id ≡ id)
unfolding generate_id
generate_id-IsEntry b id h e =
    let p : codes "ls_" ++ hex_encode b ≡ id = cc in
    subst (λ t. (length t ≡ 67) × (to_lower t ≡ t)) p
      (omega (arith, length-hex_encode b, h.0), generated-lower b h)

All-insert :
    (k : Text) (v : Session) (m : Map Session)
    → IsEntry (k, v)
    → All IsEntry m
    → All IsEntry (insert k v m)
unfolding insert
All-insert k v [] e h = (e, tt)
All-insert k v ((j, w) ∷ m) e h = elim (Bool-cases (text_eq j k)) [
  | inl same ↦ rw same (e, h.1)
  | inr other ↦ rw other (h.0, All-insert k v m e h.1)
]

All-delete : (k : Text) (m : Map Session) → All IsEntry m → All IsEntry (delete k m)
unfolding delete
All-delete k [] h = tt
All-delete k ((j, w) ∷ m) h = elim (Bool-cases (text_eq j k)) [
  | inl same ↦ rw same (All-delete k m h.1)
  | inr other ↦ rw other (h.0, All-delete k m h.1)
]

pub All-lookup :
    (k : Text) (v : Session) (m : Map Session)
    → All IsEntry m
    → lookup k m ≡ some v
    → IsEntry (k, v)
unfolding lookup
All-lookup k v [] h e = absurd (cc)
All-lookup k v ((j, w) ∷ m) h e = elim (Bool-cases (text_eq j k)) [
  | inl same ↦
      subst (λ x. IsEntry (k, x)) (some_eq w v (rw same at e))
        (subst (λ x. IsEntry (x, w)) ((text_eq_iff j k).0 same) h.0)
  | inr other ↦ All-lookup k v m h.1 (rw other at e)
]
  where
    some_eq : (a b : Session) → some a ≡ some b → a ≡ b
    some_eq a b p = cc

HasNoKey-unexpired :
    (now : ℤ) (k : Text) (m : Map Session) → HasNoKey k m → HasNoKey k (unexpired now m)
unfolding unexpired
HasNoKey-unexpired now k [] h = tt
HasNoKey-unexpired now k ((j, w) ∷ m) h = elim (Bool-cases (is_expired now w)) [
  | inl old ↦ rw old (HasNoKey-unexpired now k m h.1)
  | inr new ↦ rw new (h.0, HasNoKey-unexpired now k m h.1)
]

unexpired-IsValid :
    (now : ℤ) (m : Map Session)
    → DistinctKeys m
    → All IsEntry m
    → DistinctKeys (unexpired now m) × All IsEntry (unexpired now m)
unfolding unexpired
unexpired-IsValid now [] d h = (tt, tt)
unexpired-IsValid now ((j, w) ∷ m) d h =
    let ih = unexpired-IsValid now m d.1 h.1 in
    elim (Bool-cases (is_expired now w)) [
      | inl old ↦ rw old ih
      | inr new ↦ rw new ((HasNoKey-unexpired now j m d.0, ih.0), (h.0, ih.1))
    ]

remove_session-IsValid :
    (id : Text) (sess : Session) (s : Store) → IsValid s → IsValid (remove_session id sess s)
unfolding remove_session
remove_session-IsValid id sess s v = record {
  distinct = DistinctKeys-delete id s.sessions v.distinct;
  entries = All-delete id s.sessions v.entries;
}

-- What the environment of a call has to keep: rand.Read fills the whole buffer with bytes.
abbrev pub IsCall : Call → Type 0
IsCall (creates (some b) now ttl allowed) = IsRandom b
IsCall _ = Unit

create-IsValid :
    (b : Text) (now ttl : ℤ) (allowed : List Text) (s : Store)
    → IsRandom b
    → IsValid s
    → IsValid (create (some b) now ttl allowed s).0
unfolding create create_with
create-IsValid b now ttl allowed s h v = elim (Result-cases (generate_id (some b))) [
  | inr (e, failed) ↦ rw (failed, create) v
  | inl (id, made) ↦
      let (len, low) = generate_id-IsEntry b id h made in
      rw (made, create)
        (record {
          distinct = DistinctKeys-insert id _ s.sessions v.distinct;
          entries = All-insert id _ s.sessions (refl, len, low) v.entries;
        })
]

get_expire-IsValid : (id : Text) (s : Store) → IsValid s → IsValid (get_expire id s)
unfolding get_expire
get_expire-IsValid id s v = elim (Option-cases (lookup id s.sessions)) [
  | inl none_left ↦ rw (none_left, get_expire) v
  | inr (sess, there) ↦ rw (there, get_expire) (remove_session-IsValid id sess s v)
]

get-IsValid : (now : ℤ) (id : Text) (s : Store) → IsValid s → IsValid (get now id s).0
unfolding get
get-IsValid now id s v = go (get_read now id s) refl
  where
    go : (f : Found) → get_read now id s ≡ f → IsValid (get now id s).0
    go missing e = rw (e, get) v
    go stale e = rw (e, get) (get_expire-IsValid id s v)
    go (live sess) e = rw (e, get) v

delete_found-IsValid :
    (p : Text) (found : List Session) (s : Store) → IsValid s → IsValid (delete_found p found s).0
unfolding delete_found
delete_found-IsValid p [] s v = v
delete_found-IsValid p (f ∷ g ∷ more) s v = v
delete_found-IsValid p (f ∷ []) s v = elim (Option-cases (lookup f.id s.sessions)) [
  | inl none_left ↦ rw (none_left, delete_found) v
  | inr (sess, there) ↦ rw (there, delete_found) (remove_session-IsValid f.id sess s v)
]

cache_secret-IsValid :
    (id key : Text) (secret : ℕ) (s : Store) → IsValid s → IsValid (cache_secret id key secret s)
unfolding cache_secret
cache_secret-IsValid id key secret s v = elim (Option-cases (lookup id s.sessions)) [
  | inl none_left ↦ rw (none_left, cache_secret) v
  | inr (sess, there) ↦
      rw (there, cache_secret)
        (record {
          distinct = DistinctKeys-insert id _ s.sessions v.distinct;
          entries =
              All-insert id _ s.sessions (All-lookup id sess s.sessions v.entries there) v.entries;
        })
]

cleanup-IsValid : (now : ℤ) (s : Store) → IsValid s → IsValid (cleanup now s).0
cleanup-IsValid now s v =
    let (d, h) = unexpired-IsValid now s.sessions v.distinct v.entries in
    record { distinct = rw (cleanup-Cleaned now s).0 d; entries = rw (cleanup-Cleaned now s).0 h }

pub step-IsValid : (s : Store) (c : Call) → IsCall c → IsValid s → IsValid (step s c)
unfolding step create delete_session
step-IsValid s (creates none now ttl allowed) h v = unfold generate_id in v
step-IsValid s (creates (some b) now ttl allowed) h v = create-IsValid b now ttl allowed s h v
step-IsValid s (gets now id) h v = get-IsValid now id s v
step-IsValid s (expires id) h v = get_expire-IsValid id s v
step-IsValid s (deletes p) h v = delete_found-IsValid p (get_by_mask p s) s v
step-IsValid s (caches id key secret) h v = cache_secret-IsValid id key secret s v
step-IsValid s (cleans now) h v = cleanup-IsValid now s v

-- Starting from a store in which ids are distinct, each session stands under its own id and every id
-- is 67 characters of lower case, no sequence of calls leads to a store in which that is not so, if
-- `Create` gets 32 random bytes or an error.
pub run-IsValid : (s : Store) (cs : List Call) → All IsCall cs → IsValid s → IsValid (run s cs)
unfolding run
run-IsValid s [] h v = v
run-IsValid s (c ∷ cs) h v = run-IsValid (step s c) cs h.1 (step-IsValid s c h.0 v)
