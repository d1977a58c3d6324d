-- ===== src/Tests/Sessions.antt =====
-- The session store of internal/session/session.go at concrete inputs.
use locksmith.Common.{
  ℕ, ◌+◌, ◌≡◌, ◌≢◌, refl, subst, true, false, ◌↔◌, List, [], ◌∷◌, some, ok, err, arith, length,
  replicate, if◌then◌else◌,
}
use locksmith.Common.Int.{pos, ◌+ℤ◌}
use locksmith.Common.Text.{Text, codes, text_eq, text_eq_iff, has_prefix, to_lower, to_lower_byte}
use locksmith.Common.Assoc.{lookup, insert}
use locksmith.Session.{
  Session, Store, not_found, Heap, new_store, hex_digit, hex_encode, generate_id, create_with,
  create, is_expired, get_read, get_expire, get, mask_loop, get_by_mask, delete_found,
  delete_session, remove_session, cache_secret, cleanup_loop, cleanup, Call, creates, gets, caches,
  cleans, step, run,
}
use locksmith.Session.Wiping.{
  Removed, delete_session-Removed, cleanup-Cleaned, unexpired, held_by_expired, zeros,
}
use locksmith.Session.Valid.{IsRandom, IsValid, run-IsValid}
use locksmith.Session.Naming.{IsNamedBy, delete_session_iff}
use locksmith.Session.Revival.{get-delete_session, get_expire_safe}

abbrev random_a : Text
random_a = replicate 32 7

abbrev random_b : Text
random_b = replicate 32 201

abbrev memory : Heap
memory x = codes "hunter2"

abbrev empty : Store
empty = new_store memory

abbrev pub id_a : Text
id_a = codes "ls_0707070707070707070707070707070707070707070707070707070707070707"

abbrev pub id_b : Text
id_b = codes "ls_c9c9c9c9c9c9c9c9c9c9c9c9c9c9c9c9c9c9c9c9c9c9c9c9c9c9c9c9c9c9c9c9"

-- One session that lives until 10 and holds the slice 4, one that lives until 20.
abbrev setup : List Call
setup =
    creates (some random_a) (pos 0) (pos 10) []
    ∷ creates (some random_b) (pos 0) (pos 20) []
    ∷ caches id_a (codes "k") 4
    ∷ []

abbrev pub session_a : Session
session_a = record {
  id = id_a;
  created_at = pos 0;
  expires_at = pos 10;
  allowed_keys = [];
  secrets = (codes "k", 4) ∷ [];
}

abbrev pub session_b : Session
session_b = record {
  id = id_b;
  created_at = pos 0;
  expires_at = pos 20;
  allowed_keys = [];
  secrets = [];
}

abbrev pub two : Store
two = record { sessions = (id_a, session_a) ∷ (id_b, session_b) ∷ []; heap = memory }

random_a-IsRandom : IsRandom random_a
random_a-IsRandom = ground arith

random_b-IsRandom : IsRandom random_b
random_b-IsRandom = ground arith

setup-two : run empty setup ≡ two
unfolding run step create create_with generate_id hex_encode hex_digit insert cache_secret lookup
    text_eq new_store ◌+ℤ◌
setup-two = refl

empty-IsValid : IsValid empty
unfolding new_store
empty-IsValid = record { distinct = tt; entries = tt }

setup-IsValid : IsValid (run empty setup)
setup-IsValid =
    run-IsValid empty setup (random_a-IsRandom, (random_b-IsRandom, (tt, tt))) empty-IsValid

run-IsValid_example : IsValid (run empty setup)
run-IsValid_example =
    run-IsValid empty setup (random_a-IsRandom, (random_b-IsRandom, (tt, tt))) empty-IsValid

two-IsValid : IsValid two
two-IsValid = subst (λ s. IsValid s) setup-two setup-IsValid

-- Deleting by a prefix in upper case.
abbrev prefix_a : Text
prefix_a = codes "LS_07"

abbrev after_delete : Store
after_delete = (delete_session prefix_a two).0

delete_a : delete_session prefix_a two ≡ (after_delete, ok id_a)
unfolding delete_session delete_found get_by_mask mask_loop remove_session has_prefix to_lower
    to_lower_byte lookup text_eq
delete_a = refl

delete_session-Removed_example : (sess : Session) × Removed id_a sess two after_delete
delete_session-Removed_example = delete_session-Removed prefix_a id_a two after_delete delete_a

cleanup-Cleaned_example :
    ((cleanup (pos 15) two).0.sessions ≡ unexpired (pos 15) two.sessions)
    × ((cleanup (pos 15) two).1 + length (cleanup (pos 15) two).0.sessions ≡ length two.sessions)
    × ((x : ℕ)
        → (cleanup (pos 15) two).0.heap x
          ≡ (if held_by_expired (pos 15) x two.sessions then zeros (two.heap x) else two.heap x))
cleanup-Cleaned_example = cleanup-Cleaned (pos 15) two

delete_session_iff_example :
    ((delete_session prefix_a two).1 ≡ ok id_a) ↔ IsNamedBy prefix_a id_a two
delete_session_iff_example = delete_session_iff prefix_a id_a two two-IsValid

pub ids_differ : id_a ≢ id_b
ids_differ p =
    let equal : text_eq id_a id_b ≡ true = (text_eq_iff id_a id_b).1 p in
    let apart : text_eq id_a id_b ≡ false = unfold text_eq in refl in absurd (cc (equal, apart))

abbrev two_and_a : Store
two_and_a = (create (some random_a) (pos 5) (pos 10) [] empty).0

abbrev fresh_a : Session
fresh_a = record {
  id = id_a;
  created_at = pos 5;
  expires_at = pos 15;
  allowed_keys = [];
  secrets = [];
}

-- Calls that make no session.
abbrev others : List Call
others = caches id_b (codes "k") 7 ∷ cleans (pos 3) ∷ gets (pos 4) id_b ∷ []

get-delete_session_example :
    get (pos 5) id_a (run after_delete others) ≡ (run after_delete others, err (not_found id_a))
get-delete_session_example =
    get-delete_session prefix_a id_a two after_delete others (pos 5) two-IsValid delete_a
      (tt, (tt, (tt, tt))) ((λ x. x), ((λ x. x), ((λ x. x), tt)))

get_expire_safe_example :
    (is_expired (pos 15) session_a ≡ true)
    × Removed id_a session_a (run two others) (get_expire id_a (run two others))
unfolding get_read is_expired run step lookup text_eq cache_secret insert cleanup cleanup_loop get
get_expire_safe_example =
    get_expire_safe (pos 15) id_a two others session_a two-IsValid (tt, (tt, (tt, tt)))
      ((λ x. x), ((λ x. x), ((λ x. x), tt))) refl refl
