-- ===== src/Session/Wiping.antt =====
-- What the wiping loops of internal/session/session.go leave in memory.
use locksmith.Common.{
  ℕ, ◌+◌, ◌≡◌, refl, ap, ◌&&◌, ◌||◌, Bool, false, List, [], ◌∷◌, inl, inr, none, some, ok, arith,
  ◌==◌, if◌then◌else◌, length, replicate, Bool-cases, Option-cases,
}
use locksmith.Common.Int.{ℤ}
use locksmith.Common.Text.{Text, text_eq}
use locksmith.Common.Assoc.{Map, lookup, lookup-delete}
use locksmith.Session.{
  Heap, Session, Store, wipe_bytes, wipe_at, wipe_secrets, remove_session, get_by_mask,
  delete_found, delete_session, is_expired, cleanup_loop, cleanup,
}

unfoldable pub zeros : Text → Text
zeros s = replicate (length s) 0

pub wipe_bytes-zeros : (s : Text) → wipe_bytes s ≡ zeros s
unfolding wipe_bytes zeros
wipe_bytes-zeros [] = refl
wipe_bytes-zeros (b ∷ bs) = ap (◌∷◌ 0) (wipe_bytes-zeros bs)

pub zeros_idem : (s : Text) → zeros (zeros s) ≡ zeros s
unfolding zeros
zeros_idem [] = refl
zeros_idem (b ∷ bs) = ap (◌∷◌ 0) (zeros_idem bs)

-- Is the slice at this address one of the session's secrets?
unfoldable pub holds : ℕ → Map ℕ → Bool
holds x [] = false
holds x ((key, secret) ∷ rest) = (x == secret) || holds x rest

-- The loop zeroes the slices that the session holds and no other.
pub wipe_secrets-at :
    (m : Map ℕ) (h : Heap) (x : ℕ) → wipe_secrets m h x ≡ (if holds x m then zeros (h x) else h x)
unfolding wipe_secrets wipe_at holds
wipe_secrets-at [] h x = refl
wipe_secrets-at ((key, secret) ∷ rest) h x =
    ground
      (arith, wipe_secrets-at rest (wipe_at secret h) x, wipe_bytes-zeros (h x), zeros_idem (h x))

-- What a removal leaves: the session is gone, the others are there, its secrets are zeroed and every
-- other slice is as it was.
pub record Removed (id : Text) (sess : Session) (s s' : Store) : Type 0 where
  pub was_there : lookup id s.sessions ≡ some sess
  pub sessions_after :
      (k : Text) → lookup k s'.sessions ≡ (if text_eq id k then none else lookup k s.sessions)
  pub heap_after :
      (x : ℕ) → s'.heap x ≡ (if holds x sess.secrets then zeros (s.heap x) else s.heap x)

pub remove_session-Removed :
    (id : Text) (sess : Session) (s : Store)
    → lookup id s.sessions ≡ some sess
    → Removed id sess s (remove_session id sess s)
unfolding remove_session
remove_session-Removed id sess s e = record {
  was_there = e;
  sessions_after = λ k. lookup-delete id k s.sessions;
  heap_after = wipe_secrets-at sess.secrets s.heap;
}

delete_found-Removed :
    (p id : Text) (found : List Session) (s s' : Store)
    → delete_found p found s ≡ (s', ok id)
    → (sess : Session) × Removed id sess s s'
unfolding delete_found
delete_found-Removed p id [] s s' e = absurd (cc)
delete_found-Removed p id (f ∷ g ∷ more) s s' e = absurd (cc)
delete_found-Removed p id (f ∷ []) s s' e = elim (Option-cases (lookup f.id s.sessions)) [
  | inl n ↦ absurd (cc)
  | inr (sess, l) ↦ (sess, ground (arith, remove_session-Removed f.id sess s l))
]

-- A successful `Delete` of a prefix removes the session it names from the map, leaves the others,
-- zeroes every secret of that session in place and touches no other memory.
pub delete_session-Removed :
    (p id : Text) (s s' : Store)
    → delete_session p s ≡ (s', ok id)
    → (sess : Session) × Removed id sess s s'
unfolding delete_session
delete_session-Removed p id s s' e = delete_found-Removed p id (get_by_mask p s) s s' e

-- The entries that `Cleanup` is to keep, and the slices that it is to wipe.
unfoldable pub unexpired : ℤ → Map Session → Map Session
unexpired now [] = []
unexpired now ((id, sess) ∷ rest) =
    if is_expired now sess then unexpired now rest else (id, sess) ∷ unexpired now rest

unfoldable pub held_by_expired : ℤ → ℕ → Map Session → Bool
held_by_expired now x [] = false
held_by_expired now x ((id, sess) ∷ rest) =
    (is_expired now sess && holds x sess.secrets) || held_by_expired now x rest

abbrev Cleaned : ℤ → Map Session → Heap → Map Session × Heap × ℕ → Type 0
Cleaned now m h (kept, h', removed) =
    (kept ≡ unexpired now m)
    × (removed + length kept ≡ length m)
    × ((x : ℕ) → h' x ≡ (if held_by_expired now x m then zeros (h x) else h x))

cleanup_step :
    (now : ℤ) (sess : Session) (rest : Map Session) (h : Heap) (x : ℕ) (v : Text)
    → v ≡ (
        if held_by_expired now x rest
        then zeros (wipe_secrets sess.secrets h x)
        else wipe_secrets sess.secrets h x)
    → v ≡ (if holds x sess.secrets || held_by_expired now x rest then zeros (h x) else h x)
cleanup_step now sess rest h x v e =
    ground (arith, wipe_secrets-at sess.secrets h x, zeros_idem (h x))

cleanup_loop-Cleaned :
    (now : ℤ) (m : Map Session) (h : Heap) → Cleaned now m h (cleanup_loop now m h)
unfolding cleanup_loop unexpired held_by_expired
cleanup_loop-Cleaned now [] h = (refl, refl, λ x. refl)
cleanup_loop-Cleaned now ((id, sess) ∷ rest) h = elim (Bool-cases (is_expired now sess)) [
  | inl old ↦
      let ih = cleanup_loop-Cleaned now rest (wipe_secrets sess.secrets h) in
      rw (old, cleanup_loop) (ih.0, omega arith, λ x. cleanup_step now sess rest h x _ (ih.2 x))
  | inr new ↦
      let ih = cleanup_loop-Cleaned now rest h in
      rw (new, cleanup_loop) (ap (◌∷◌ (id, sess)) ih.0, omega arith, ih.2)
]

-- `Cleanup` keeps exactly the sessions that have not expired, in their order, reports how many it
-- removed, zeroes every secret of the removed sessions and no other memory.
pub cleanup-Cleaned :
    (now : ℤ) (s : Store)
    → ((cleanup now s).0.sessions ≡ unexpired now s.sessions)
      × ((cleanup now s).1 + length (cleanup now s).0.sessions ≡ length s.sessions)
      × ((x : ℕ)
          → (cleanup now s).0.heap x
            ≡ (if held_by_expired now x s.sessions then zeros (s.heap x) else s.heap x))
unfolding cleanup
cleanup-Cleaned now s = cleanup_loop-Cleaned now s.sessions s.heap
