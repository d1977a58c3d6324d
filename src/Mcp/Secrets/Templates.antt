-- ===== src/Mcp/Secrets/Templates.antt =====
-- What ResolveTemplate of internal/mcp/secrets.go makes of a template.
use mathlib.Core.List.{append_assoc}
use locksmith.Common.{
  ℕ, suc, zero, ◌+◌, ◌<◌, ◌≤◌, ◌≡◌, ◌∙◌, refl, ap, sym, false, List, [], ◌∷◌, ◌++◌, inl, inr,
  Option, some, Result, ok, err, ◌>>=◌, arith, length, length-append, All, Result-cases,
}
use locksmith.Common.Text.{Text, contains_byte}
use locksmith.Common.Split.{cut-append, cut-whole, contains_byte-cases}
use locksmith.Mcp.Secrets.{
  SecretRef, Error, unclosed, fetch_inner, after_close, after_open, resolve_loop, resolve_template,
}

-- The end of a template: text, or an opening brace that is never closed.
pub data Ending : Type 0 where
  plain : Text → Ending
  left_open : Text → Text → Ending

-- Texts each followed by a reference, and the end.
pub record Template : Type 0 where
  pub holes : List (Text × Text)
  pub ending : Ending

abbrev IsHole : Text × Text → Type 0
IsHole (before, inner) = (contains_byte b'{' before ≡ false) × (contains_byte b'}' inner ≡ false)

abbrev IsEnding : Ending → Type 0
IsEnding (plain t) = contains_byte b'{' t ≡ false
IsEnding (left_open before after) =
    (contains_byte b'{' before ≡ false) × (contains_byte b'}' after ≡ false)

-- Text has no opening brace, and a reference no closing one.
abbrev pub IsTemplate : Template → Type 0
IsTemplate t = All IsHole t.holes × IsEnding t.ending

unfoldable pub render_ending : Ending → Text
render_ending (plain t) = t
render_ending (left_open before after) = before ++ (b'{' ∷ after)

unfoldable pub render_holes : List (Text × Text) → Ending → Text
render_holes [] e = render_ending e
render_holes ((before, inner) ∷ holes) e =
    before ++ (b'{' ∷ (inner ++ (b'}' ∷ render_holes holes e)))

unfoldable pub render : Template → Text
render t = render_holes t.holes t.ending

-- The text with the values in the places of the references.
unfoldable pub fill : List (Text × Text) → List Text → Text → Text
fill [] values end = end
fill ((before, inner) ∷ holes) [] end = before ++ fill holes [] end
fill ((before, inner) ∷ holes) (value ∷ values) end = before ++ (value ++ fill holes values end)

unfoldable pub finish : Text → Text → List (Text × Text) → Ending → List Text → Result Error Text
finish tmpl result holes (plain t) values = ok (result ++ fill holes values t)
finish tmpl result holes (left_open before after) values = err (unclosed tmpl)

module _ {W : Type 0} (fetch : SecretRef → W → W × Result Text Text) where
  -- Fetching the references from left to right, up to the first that fails.
  unfoldable pub fetch_all : Text → List (Text × Text) → W → W × Result Error (List Text)
  fetch_all tmpl [] w = (w, ok [])
  fetch_all tmpl ((before, inner) ∷ holes) w = elim (fetch_inner fetch tmpl inner w).1 [
    | err e ↦ ((fetch_inner fetch tmpl inner w).0, err e)
    | ok value ↦
        let (w', rest) = fetch_all tmpl holes (fetch_inner fetch tmpl inner w).0 in
        (w', rest >>= λ values. ok (value ∷ values))
  ]

  unfoldable pub outcome :
      Text
      → Text
      → List (Text × Text)
      → Ending
      → W × Result Error (List Text)
      → W × Option (Result Error Text)
  outcome tmpl result holes e (w, r) = (w, some (r >>= finish tmpl result holes e))

  outcome-cons :
      (tmpl result before inner value : Text) (holes : List (Text × Text)) (e : Ending) (w : W)
      (rest : Result Error (List Text))
      → outcome tmpl (result ++ (before ++ value)) holes e (w, rest)
        ≡ outcome tmpl result
            ((before, inner) ∷ holes)
            e
            (w, rest >>= λ values. ok (value ∷ values))
  unfolding outcome finish fill
  outcome-cons tmpl result before inner value holes (plain t) w (ok values) =
      ap (λ x. (w, some (ok x)))
        (append_assoc result (before ++ value) (fill holes values t)
          ∙ ap (λ x. result ++ x) (append_assoc before value (fill holes values t)))
  outcome-cons tmpl result before inner value holes (plain t) w (err x) = refl
  outcome-cons tmpl result before inner value holes (left_open b a) w (ok values) = refl
  outcome-cons tmpl result before inner value holes (left_open b a) w (err x) = refl

  resolve_ending :
      (fuel : ℕ) (tmpl result : Text) (e : Ending) (w : W)
      → IsEnding e
      → resolve_loop fetch (suc fuel) tmpl (render_ending e) result w
        ≡ outcome tmpl result [] e (w, ok [])
  unfolding resolve_loop outcome finish fill render_ending
  resolve_ending fuel tmpl result (plain t) w h =
      rw (cut-whole b'{' t h) (unfold after_open in refl)
  resolve_ending fuel tmpl result (left_open before after) w h =
      rw (cut-append b'{' before after h.0)
        (unfold after_open in rw (cut-whole b'}' after h.1) (unfold after_close in refl))

  resolve_hole :
      (fuel : ℕ) (tmpl result before inner rest : Text) (w : W)
      → IsHole (before, inner)
      → resolve_loop fetch (suc fuel) tmpl (before ++ (b'{' ∷ (inner ++ (b'}' ∷ rest)))) result w
        ≡ elim (fetch_inner fetch tmpl inner w).1 [
          | err e ↦ ((fetch_inner fetch tmpl inner w).0, some (err e))
          | ok value ↦
              resolve_loop fetch fuel tmpl rest
                (result ++ (before ++ value))
                (fetch_inner fetch tmpl inner w).0
        ]
  unfolding resolve_loop
  resolve_hole fuel tmpl result before inner rest w h =
      rw (cut-append b'{' before (inner ++ (b'}' ∷ rest)) h.0)
        (unfold after_open in rw (cut-append b'}' inner rest h.1) (unfold after_close in refl))

  resolve_loop-render :
      (fuel : ℕ) (tmpl result : Text) (holes : List (Text × Text)) (e : Ending) (w : W)
      → length holes < fuel
      → All IsHole holes
      → IsEnding e
      → resolve_loop fetch fuel tmpl (render_holes holes e) result w
        ≡ outcome tmpl result holes e (fetch_all tmpl holes w)
  unfolding fetch_all render_holes
  resolve_loop-render zero tmpl result holes e w l hs he = absurd (omega arith)
  resolve_loop-render (suc fuel) tmpl result [] e w l hs he = resolve_ending fuel tmpl result e w he
  resolve_loop-render (suc fuel) tmpl result ((before, inner) ∷ holes) e w l hs he =
      let w' = (fetch_inner fetch tmpl inner w).0 in
      rw (resolve_hole fuel tmpl result before inner (render_holes holes e) w hs.0)
        (elim (Result-cases (fetch_inner fetch tmpl inner w).1) [
          | inr (x, failed) ↦ rw (failed, fetch_all) (unfold outcome in refl)
          | inl (value, fetched) ↦
              rw (fetched, fetch_all)
                (resolve_loop-render fuel tmpl (result ++ (before ++ value)) holes e w'
                    (omega arith) hs.1 he
                  ∙ outcome-cons tmpl result before inner value holes e (fetch_all tmpl holes w').0
                      (fetch_all tmpl holes w').1)
        ])

length_holes :
    (holes : List (Text × Text)) (e : Ending) → length holes ≤ length (render_holes holes e)
unfolding render_holes
length_holes [] e = omega arith
length_holes ((before, inner) ∷ holes) e = omega (
  arith,
  length_holes holes e,
  length-append before (b'{' ∷ (inner ++ (b'}' ∷ render_holes holes e))),
  length-append inner (b'}' ∷ render_holes holes e),
)

holes_of : (n : ℕ) (s : Text) → length s ≤ n → (t : Template) × IsTemplate t × (render t ≡ s)
unfolding render render_holes render_ending
holes_of zero [] l =
    (record { holes = []; ending = plain [] }, (tt, unfold contains_byte in refl), refl)
holes_of zero (c ∷ s) l = absurd (omega arith)
holes_of (suc n) s l = elim (contains_byte-cases b'{' s) [
  | inl clear ↦ (record { holes = []; ending = plain s }, (tt, clear), refl)
  | inr (before, after, clear, e) ↦ elim (contains_byte-cases b'}' after) [
    | inl never ↦
        (record { holes = []; ending = left_open before after }, (tt, (clear, never)), sym e)
    | inr (inner, rest, clear', e') ↦
        let len : length s ≡ suc (length before + suc (length inner + length rest)) =
          ap (λ x. length x) (e ∙ ap (λ x. before ++ (b'{' ∷ x)) e')
          ∙ omega (
            arith,
            length-append before (b'{' ∷ (inner ++ (b'}' ∷ rest))),
            length-append inner (b'}' ∷ rest),
          ) in
        let (t, wf, r) = holes_of n rest (omega arith) in
        (
          record { holes = (before, inner) ∷ t.holes; ending = t.ending },
          (((clear, clear'), wf.0), wf.1),
          ap (λ x. before ++ (b'{' ∷ (inner ++ (b'}' ∷ x)))) r
              ∙ sym (e ∙ ap (λ x. before ++ (b'{' ∷ x)) e'),
        )
  ]
]

-- Every text is a template.
pub template_of : (s : Text) → (t : Template) × IsTemplate t × (render t ≡ s)
template_of s = holes_of (length s) s (omega arith)

pub resolve_template-render :
    {W : Type 0} (fetch : SecretRef → W → W × Result Text Text) (t : Template) (w : W)
    → IsTemplate t
    → resolve_template fetch (render t) w
      ≡ outcome fetch (render t) [] t.holes t.ending (fetch_all fetch (render t) t.holes w)
unfolding resolve_template render
resolve_template-render fetch t w wf =
    resolve_loop-render fetch (suc (length (render t))) (render t) [] t.holes t.ending w
      (omega (arith, length_holes t.holes t.ending)) wf.0 wf.1

-- The fuel is enough for every text.
pub resolve_template_ends :
    {W : Type 0} (fetch : SecretRef → W → W × Result Text Text) (s : Text) (w : W)
    → (r : Result Error Text) × ((resolve_template fetch s w).1 ≡ some r)
unfolding outcome
resolve_template_ends fetch s w =
    let (t, wf, e) = template_of s in
    (
      _,
      ap (λ x. (resolve_template fetch x w).1) (sym e)
          ∙ ap (λ p. p.1) (resolve_template-render fetch t w wf),
    )
