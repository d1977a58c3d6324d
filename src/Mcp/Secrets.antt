-- ===== src/Mcp/Secrets.antt =====
-- internal/mcp/secrets.go: references to secrets, templates that hold them, and the fetcher that
-- renews an expired session.
--
-- The daemon and the caller's RefreshSession are arguments that pass a world `W` along; an error of
-- the daemon is its text.
pub mod Templates
pub mod References
pub mod Refreshing
use locksmith.Common.{
  ℕ, suc, zero, Bool, true, false, not, ◌&&◌, ◌||◌, List, [], ◌∷◌, ◌++◌, Option, none, some, Result,
  ok, err, wrap_err, if◌then◌else◌, length, take, drop, ◌-◌, reverse,
}
use locksmith.Common.Text.{Text, codes, text_eq, is_empty, has_prefix, contains}
use locksmith.Common.Split.{cut}
use locksmith.Common.Words.{trim_space, fields}

pub record SecretRef : Type 0 where
  pub key_alias : Text
  pub vault_name : Text
  pub path : Text

pub data RefError : Type 0 where
  empty_reference : RefError
  unclosed_reference : Text → RefError
  no_colon : Text → RefError
  empty_alias : RefError
  unknown_field : Text → RefError
  incomplete : RefError

abbrev pub no_ref : SecretRef
no_ref = record { key_alias = []; vault_name = []; path = [] }

-- The switch in the loop of parseInnerRef.
unfoldable pub set_field : Text → Text → SecretRef → Result RefError SecretRef
set_field k v ref =
    if text_eq k (codes "key")
    then (if is_empty v then err empty_alias else ok (record ref { key_alias = v }))
    else if text_eq k (codes "vault")
    then ok (record ref { vault_name = v })
    else if text_eq k (codes "path")
    then ok (record ref { path = v })
    else err (unknown_field k)

unfoldable pub parse_fields : List Text → SecretRef → Result RefError SecretRef
parse_fields [] ref = ok ref
parse_fields (field ∷ rest) ref =
    let (k, v, found) = cut b':' field in
    if not found
    then err (no_colon field)
    else elim (set_field k v ref) [ err e ↦ err e | ok ref' ↦ parse_fields rest ref' ]

-- The test at the end of parseInnerRef.
unfoldable pub is_complete : SecretRef → Bool
is_complete ref = not (is_empty ref.key_alias && (is_empty ref.vault_name || is_empty ref.path))

-- parseInnerRef
unfoldable pub parse_inner_ref : Text → Result RefError SecretRef
parse_inner_ref inner = elim (parse_fields (fields inner) no_ref) [
  | err e ↦ err e
  | ok ref ↦ if is_complete ref then ok ref else err incomplete
]

-- strings.HasSuffix(s, "}")
unfoldable pub ends_with_brace : Text → Bool
ends_with_brace s = has_prefix (reverse s) (codes "}")

-- ParseRef
unfoldable pub parse_ref : Text → Result RefError SecretRef
parse_ref s =
    let trimmed = trim_space s in
    if not (has_prefix trimmed (codes "{"))
    then (if is_empty trimmed
        then err empty_reference
        else ok (record no_ref { key_alias = trimmed }))
    else if not (ends_with_brace trimmed)
    then err (unclosed_reference trimmed)
    else parse_inner_ref (take (length trimmed - 2) (drop 1 trimmed))

pub data Error : Type 0 where
  unclosed : Text → Error
  invalid : Text → RefError → Error
  resolving : Text → Text → Error

module _ {W : Type 0} (fetch : SecretRef → W → W × Result Text Text) where
  -- Parsing the text between the braces and fetching what it names.
  unfoldable pub fetch_inner : Text → Text → W → W × Result Error Text
  fetch_inner tmpl inner w = elim (parse_inner_ref inner) [
    | err e ↦ (w, err (invalid tmpl e))
    | ok ref ↦ let (w', r) = fetch ref w in (w', wrap_err (resolving tmpl) r)
  ]

  -- A round of the loop of ResolveTemplate behind the search for the closing brace; `more` is the next
  -- round.
  unfoldable pub after_close :
      Text
      → Text
      → Text
      → (Text → Text → W → W × Option (Result Error Text))
      → W
      → Text × Text × Bool
      → W × Option (Result Error Text)
  after_close tmpl result before more w (inner, rest, false) = (w, some (err (unclosed tmpl)))
  after_close tmpl result before more w (inner, rest, true) =
      let (w', r) = fetch_inner tmpl inner w in
      elim r [ err e ↦ (w', some (err e)) | ok value ↦ more rest (result ++ (before ++ value)) w' ]

  -- A round behind the search for the opening brace.
  unfoldable pub after_open :
      Text
      → Text
      → Text
      → (Text → Text → W → W × Option (Result Error Text))
      → W
      → Text × Text × Bool
      → W × Option (Result Error Text)
  after_open tmpl remaining result more w (before, after, false) =
      (w, some (ok (result ++ remaining)))
  after_open tmpl remaining result more w (before, after, true) =
      after_close tmpl result before more w (cut b'}' after)

  -- The loop of ResolveTemplate. `fuel` bounds the rounds; `result` is the builder.
  unfoldable pub resolve_loop : ℕ → Text → Text → Text → W → W × Option (Result Error Text)
  resolve_loop zero tmpl remaining result w = (w, none)
  resolve_loop (suc fuel) tmpl remaining result w =
      after_open tmpl remaining result (resolve_loop fuel tmpl) w (cut b'{' remaining)

  -- ResolveTemplate; a round takes at least two characters off.
  unfoldable pub resolve_template : Text → W → W × Option (Result Error Text)
  resolve_template tmpl w = resolve_loop (suc (length tmpl)) tmpl tmpl [] w

-- isSessionExpiredError, of the error's text
unfoldable pub is_session_expired_error : Text → Bool
is_session_expired_error s =
    contains s (codes "invalid session") || contains s (codes "session for prefix")

pub data FetchError : Type 0 where
  getting : Text → FetchError
  refreshing : Text → FetchError
  getting_again : Text → FetchError

-- GRPCFetcher: the session id, and the rest of the world, in which the daemon keeps its state.
module _ {W : Type 0} (ask : Text → SecretRef → W → W × Result Text Text) where
  -- The last request of Fetch, under the id that the fetcher has by then.
  unfoldable pub ask_again : SecretRef → Text → W → Text × W × Result FetchError Text
  ask_again ref sid w = let (w', r) = ask sid ref w in (sid, w', wrap_err getting_again r)

  -- The critical section between the two requests. `now` is the session id by then.
  unfoldable pub renew :
      (W → W × Result Text Text) → SecretRef → Text → Text → W → Text × W × Result FetchError Text
  renew refresh_session ref sid now w =
      if text_eq now sid
      then (let (w', r) = refresh_session w in
          elim r [ err e ↦ (now, w', err (refreshing e)) | ok new_sid ↦ ask_again ref new_sid w' ])
      else ask_again ref now w

  -- Fetch: the session id afterwards, the world and the secret. `meanwhile` is what other goroutines
  -- make of the session id during the first request.
  unfoldable pub fetch_secret :
      Option (W → W × Result Text Text)
      → SecretRef
      → Text
      → (Text → Text)
      → W
      → Text × W × Result FetchError Text
  fetch_secret refresh ref sid meanwhile w =
      let (w', r) = ask sid ref w in
      elim r [
        | ok secret ↦ (meanwhile sid, w', ok secret)
        | err e ↦
            if not (is_session_expired_error e)
            then (meanwhile sid, w', err (getting e))
            else elim refresh [
              | none ↦ (meanwhile sid, w', err (getting e))
              | some refresh_session ↦ renew refresh_session ref sid (meanwhile sid) w'
            ]
      ]
