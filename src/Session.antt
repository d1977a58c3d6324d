-- ===== src/Session.antt =====
-- internal/session/session.go: the daemon's in-memory store of agent sessions.
--
-- A cached secret is a byte slice, shared with whoever else holds it, so the map of a session holds
-- addresses and the bytes are in a heap. Times and durations are nanoseconds. Each method runs under
-- the store's mutex and is one step, but for `Get`, which reads and deletes in two critical
-- sections: `get_read` and `get_expire`.
pub mod Wiping
pub mod Valid
pub mod Prefix
pub mod Naming
pub mod Lifetime
pub mod History
pub mod Revival
pub mod Secrets
use locksmith.Common.{
  ℕ, ◌+◌, ◌/◌, ◌%◌, ◌≡◌, Bool, true, false, ◌&&◌, List, [], ◌∷◌, ◌++◌, map, Option, none, some,
  Result, ok, err, leb, ltb, ◌==◌, if◌then◌else◌, length,
}
use locksmith.Common.Int.{ℤ, ◌+ℤ◌, ltb_ℤ}
use locksmith.Common.Text.{Text, codes, text_eq, is_empty, has_prefix, to_lower}
use locksmith.Common.Assoc.{Map, lookup, insert, delete}

-- The byte slices that are alive, by address.
abbrev pub Heap : Type 0
Heap = ℕ → Text

pub record Session : Type 0 where
  pub id : Text
  pub created_at : ℤ
  pub expires_at : ℤ
  pub allowed_keys : List Text
  pub secrets : Map ℕ

pub record Store : Type 0 where
  pub sessions : Map Session
  pub heap : Heap

pub data Error : Type 0 where
  no_random : Error
  not_found : Text → Error
  expired : Text → Error
  multiple : Text → Error
  internal : Text → Error

-- NewStore
unfoldable pub new_store : Heap → Store
new_store h = record { sessions = []; heap = h }

-- for i := range b { b[i] = 0 }
unfoldable pub wipe_bytes : Text → Text
wipe_bytes [] = []
wipe_bytes (b ∷ bs) = 0 ∷ wipe_bytes bs

-- wipeBytes(secret), in place
unfoldable pub wipe_at : ℕ → Heap → Heap
wipe_at a h x = if x == a then wipe_bytes (h x) else h x

-- The loop over a session's secrets that wipes each of them.
unfoldable pub wipe_secrets : Map ℕ → Heap → Heap
wipe_secrets [] h = h
wipe_secrets ((key, secret) ∷ rest) h = wipe_secrets rest (wipe_at secret h)

-- hex.EncodeToString
unfoldable pub hex_digit : ℕ → ℕ
hex_digit n = if ltb n 10 then 48 + n else 87 + n

unfoldable pub hex_encode : Text → Text
hex_encode [] = []
hex_encode (b ∷ bs) = hex_digit (b / 16) ∷ hex_digit (b % 16) ∷ hex_encode bs

-- generateID. The argument is what rand.Read fills the buffer with, or its error.
unfoldable pub generate_id : Option Text → Result Error Text
generate_id none = err no_random
generate_id (some b) = ok (codes "ls_" ++ hex_encode b)

unfoldable pub create_with : Text → ℤ → ℤ → List Text → Store → Store × Session
create_with id now ttl allowed s =
    let sess : Session = record {
      id = id;
      created_at = now;
      expires_at = now +ℤ ttl;
      allowed_keys = allowed;
      secrets = [];
    } in
    (record s { sessions = insert id sess s.sessions }, sess)

-- Create
unfoldable pub create : Option Text → ℤ → ℤ → List Text → Store → Store × Result Error Session
unfolding create_with
create random now ttl allowed s = elim (generate_id random) [
  | err e ↦ (s, err e)
  | ok id ↦ let (s', sess) = create_with id now ttl allowed s in (s', ok sess)
]

-- time.Now().After(sess.ExpiresAt)
unfoldable pub is_expired : ℤ → Session → Bool
is_expired now sess = ltb_ℤ sess.expires_at now

-- The critical section under RLock, and the test behind it.
pub data Found : Type 0 where
  missing : Found
  stale : Found
  live : Session → Found

unfoldable pub get_read : ℤ → Text → Store → Found
get_read now id s = elim (lookup id s.sessions) [
  | none ↦ missing
  | some sess ↦ if is_expired now sess then stale else live sess
]

-- Wiping a session and taking it out of the map.
unfoldable pub remove_session : Text → Session → Store → Store
remove_session id sess s = record {
  sessions = delete id s.sessions;
  heap = wipe_secrets sess.secrets s.heap;
}

-- The critical section under Lock, which only re-checks that the session is still there.
unfoldable pub get_expire : Text → Store → Store
get_expire id s = elim (lookup id s.sessions) [ none ↦ s | some sess ↦ remove_session id sess s ]

-- Get
unfoldable pub get : ℤ → Text → Store → Store × Result Error Session
get now id s = elim (get_read now id s) [
  | missing ↦ (s, err (not_found id))
  | stale ↦ (get_expire id s, err (expired id))
  | live sess ↦ (s, ok sess)
]

-- getByMask: the loop stops at a match of the same length.
unfoldable pub mask_loop : Text → Map Session → List Session
mask_loop prefix [] = []
mask_loop prefix ((k, session) ∷ rest) =
    let session_id = to_lower session.id in
    let later = mask_loop prefix rest in
    if has_prefix session_id prefix
    then (if length session_id == length prefix then session ∷ [] else session ∷ later)
    else later

unfoldable pub get_by_mask : Text → Store → List Session
get_by_mask id_prefix s = mask_loop (to_lower id_prefix) s.sessions

-- Delete, behind the search for the sessions of the prefix.
unfoldable pub delete_found : Text → List Session → Store → Store × Result Error Text
delete_found id_prefix [] s = (s, err (not_found id_prefix))
delete_found id_prefix (found ∷ other ∷ more) s = (s, err (multiple id_prefix))
delete_found id_prefix (found ∷ []) s = elim (lookup found.id s.sessions) [
  | none ↦ (s, err (internal id_prefix))
  | some sess ↦ (remove_session found.id sess s, ok found.id)
]

-- Delete
unfoldable pub delete_session : Text → Store → Store × Result Error Text
delete_session id_prefix s = delete_found id_prefix (get_by_mask id_prefix s) s

-- CacheSecret. The session object is shared by pointer: the map entry shows the new cache.
unfoldable pub cache_secret : Text → Text → ℕ → Store → Store
cache_secret id key secret s = elim (lookup id s.sessions) [
  | none ↦ s
  | some sess ↦ record s {
    sessions = insert id (record sess { secrets = insert key secret sess.secrets }) s.sessions;
  }
]

-- for _, k := range sess.AllowedKeys
unfoldable pub in_list : Text → List Text → Bool
in_list key [] = false
in_list key (k ∷ ks) = let rest = in_list key ks in if text_eq k key then true else rest

-- isKeyAllowed
unfoldable pub is_key_allowed : Session → Text → Bool
is_key_allowed sess key = elim sess.allowed_keys [ [] ↦ true | k ∷ ks ↦ in_list key (k ∷ ks) ]

-- GetCachedSecret: the address of the secret, or none.
unfoldable pub get_cached_secret : Text → Text → Store → Option ℕ
get_cached_secret id key s = elim (lookup id s.sessions) [
  | none ↦ none
  | some sess ↦ if is_key_allowed sess key then lookup key sess.secrets else none
]

-- List: the sessions without their secrets.
unfoldable pub list_sessions : Store → List Session
list_sessions s = map (λ (p : Text × Session). record (p.1) { secrets = [] }) s.sessions

-- Cleanup
unfoldable pub cleanup_loop : ℤ → Map Session → Heap → Map Session × Heap × ℕ
cleanup_loop now [] h = ([], h, 0)
cleanup_loop now ((id, sess) ∷ rest) h = elim (is_expired now sess) [
  | true ↦
      let (kept, h', removed) = cleanup_loop now rest (wipe_secrets sess.secrets h) in
      (kept, h', removed + 1)
  | false ↦ let (kept, h', removed) = cleanup_loop now rest h in ((id, sess) ∷ kept, h', removed)
]

unfoldable pub cleanup : ℤ → Store → Store × ℕ
cleanup now s =
    let (kept, h, removed) = cleanup_loop now s.sessions s.heap in
    (record { sessions = kept; heap = h }, removed)

-- The calls that change the store, with what each call finds: the random bytes and the time.
pub data Call : Type 0 where
  creates : Option Text → ℤ → ℤ → List Text → Call
  gets : ℤ → Text → Call
  -- The second critical section of a `Get` whose first one was earlier.
  expires : Text → Call
  deletes : Text → Call
  caches : Text → Text → ℕ → Call
  cleans : ℤ → Call

unfoldable pub step : Store → Call → Store
step s (creates random now ttl allowed) = (create random now ttl allowed s).0
step s (gets now id) = (get now id s).0
step s (expires id) = get_expire id s
step s (deletes id_prefix) = (delete_session id_prefix s).0
step s (caches id key secret) = cache_secret id key secret s
step s (cleans now) = (cleanup now s).0

unfoldable pub run : Store → List Call → Store
run s [] = s
run s (c ∷ cs) = run (step s c) cs
