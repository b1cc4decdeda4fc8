-- ===== src/Server/Http/Revalidated.antt =====
-- internal/server/http/content.go: the validator that was sent is accepted when it comes back.
use Prim.Native.String.{◌++◌ as str_append}
use Prim.Native.String as Text
use Prim.Native.Char.{code}
use text.Mathlib.Text.{starts_with}
use text.Mathlib.TextEquality.{eq_iff, starts_with_iff}
use text.Mathlib.TextLemmas.{nil-append, cons-append}
use gophprofile.Base.{
  is_space, ℕ, String, ◌≡◌, refl, sym, ap, ◌∙◌, subst, ◌≢◌, ◌⊎◌, inl, inr, Bool, true, false, List,
  [], ◌∷◌, ◌++◌, All, any, arith, ◌==◌, str_eq, Bool-cases, if◌then◌else◌, codes,
}
use gophprofile.Server.Service.{Content}
use gophprofile.Server.Http.Content.{
  answer, candidate_matches, quote_etag, comma, split, trim_left, trim_right, trim_space, trim_weak,
  same, match_etag, write_content,
}

-- A character that neither separates nor is trimmed.
abbrev pub IsPlain : ℕ → Type 0
IsPlain c = ((c == comma) ≡ false) × (is_space c ≡ false)

codes-append : (s t : String) → codes (str_append s t) ≡ codes s ++ codes t
codes-append Text.[] t = ap codes (nil-append t)
codes-append (Text.◌∷◌ c s) t =
    ap codes (cons-append c s t) ∙ ap (λ cs. code c ∷ cs) (codes-append s t)

All-append : (xs ys : List ℕ) → All IsPlain xs → All IsPlain ys → All IsPlain (xs ++ ys)
All-append [] ys p q = q
All-append (x ∷ xs) ys p q = (p.0, All-append xs ys p.1 q)

split-plain : (cs : List ℕ) → All IsPlain cs → split cs ≡ cs ∷ []
unfolding split
split-plain [] p = refl
split-plain (c ∷ cs) p = ground (arith, split-plain cs p.1)

trim_left-plain : (cs : List ℕ) → All IsPlain cs → trim_left cs ≡ cs
unfolding trim_left
trim_left-plain [] p = refl
trim_left-plain (c ∷ cs) p = rw (p.0.1) refl

trim_right-plain : (cs : List ℕ) → All IsPlain cs → trim_right cs ≡ cs
unfolding trim_right
trim_right-plain [] p = refl
trim_right-plain (c ∷ []) p = rw (p.0.1) refl
trim_right-plain (c ∷ d ∷ cs) p = rw (trim_right-plain (d ∷ cs) p.1) refl

trim_space-plain : (cs : List ℕ) → All IsPlain cs → trim_space cs ≡ cs
unfolding trim_space
trim_space-plain cs p = ap trim_right (trim_left-plain cs p) ∙ trim_right-plain cs p

same_refl : (cs : List ℕ) → same cs cs ≡ true
same_refl [] = refl
same_refl (c ∷ cs) = ground (arith, same_refl cs)

quote_etag-cases :
    (etag : String)
    → etag ≢ ""
    → ((quote_etag etag ≡ etag) × ((r : String) × (str_append "\"" r ≡ etag)))
      ⊎ (quote_etag etag ≡ str_append "\"" (str_append etag "\""))
unfolding quote_etag
quote_etag-cases etag h = elim (Bool-cases (str_eq etag "")) [
  | inl blank ↦ absurd (h ((eq_iff etag "").0 blank))
  | inr given ↦ elim (Bool-cases (starts_with etag "\"")) [
    | inl quoted ↦ inl (rw (given, quoted) refl, (starts_with_iff etag "\"").0 quoted)
    | inr bare ↦ inr (rw (given, bare) refl)
  ]
]

-- A validator in quotes is a quote and what follows it, and plain where the tag is.
quote_etag-IsPlain :
    (etag : String)
    → etag ≢ ""
    → All IsPlain (codes etag)
    → All IsPlain (codes (quote_etag etag)) × (cs : List ℕ) × (codes (quote_etag etag) ≡ b'"' ∷ cs)
quote_etag-IsPlain etag h p = elim (quote_etag-cases etag h) [
  | inl (e, (r, q)) ↦ (
    subst (λ t. All IsPlain (codes t)) (sym e) p,
    codes r,
    ap codes e ∙ (ap codes (sym q) ∙ codes-append "\"" r),
  )
  | inr e ↦ (
    subst (All IsPlain)
        (sym (ap codes e ∙ (codes-append "\"" _ ∙ ap (λ cs. b'"' ∷ cs) (codes-append etag "\""))))
        ((refl, refl), All-append (codes etag) _ p ((refl, refl), tt)),
    _,
    ap codes e ∙ codes-append "\"" (str_append etag "\""),
  )
]

trim_weak-quoted : (cs : List ℕ) → trim_weak (b'"' ∷ cs) ≡ b'"' ∷ cs
unfolding trim_weak
trim_weak-quoted [] = refl
trim_weak-quoted (c ∷ cs) = refl

match-plain :
    (sent tag : List ℕ)
    → All IsPlain sent
    → trim_weak sent ≡ tag
    → any (candidate_matches tag) (split sent) ≡ true
match-plain sent tag p h =
    ground (arith, split-plain sent p, trim_space-plain sent p, h, same_refl tag)

abbrev NonEmpty : String → Type 0
NonEmpty Text.[] = ⊥
NonEmpty (Text.◌∷◌ c s) = Unit

head-nonempty : (t : String) (c : ℕ) (cs : List ℕ) → codes t ≡ c ∷ cs → str_eq t "" ≡ false
head-nonempty Text.[] c cs h = ground arith
head-nonempty (Text.◌∷◌ b t) c cs h = elim (Bool-cases (str_eq (Text.◌∷◌ b t) "")) [
  | inl blank ↦ absurd (subst NonEmpty ((eq_iff _ "").0 blank) tt)
  | inr given ↦ given
]

match_etag-plain :
    (sent tag : String) (c d : ℕ) (cs ds : List ℕ)
    → codes sent ≡ c ∷ cs
    → codes tag ≡ d ∷ ds
    → All IsPlain (codes sent)
    → trim_weak (codes sent) ≡ codes tag
    → match_etag sent tag ≡ true
unfolding match_etag
match_etag-plain sent tag c d cs ds g e p h =
    rw (head-nonempty sent c cs g, head-nonempty tag d ds e)
      (match-plain (codes sent) (codes tag) p h)

answer-unchanged :
    (matched : Bool) (etag : String) (content : Content)
    → matched ≡ true
    → ((answer matched etag content).status ≡ 304) × ((answer matched etag content).body ≡ [])
answer-unchanged true etag content h = (refl, refl)
answer-unchanged false etag content h = ground arith

-- Where the tag of an image has neither commas nor spaces, a client that sends the validator of an
-- answer back is told that nothing has changed and gets no body, also with the mark of a weak
-- validator before it.
pub write_content-revalidated :
    (content : Content) (weak : Bool)
    → content.etag ≢ ""
    → All IsPlain (codes content.etag)
    → let tag = quote_etag content.etag in
      let reply = write_content (if weak then str_append "W/" tag else tag) content in
      (reply.status ≡ 304) × (reply.body ≡ [])
unfolding write_content trim_weak
write_content-revalidated content false h p =
    let (plain, cs, e) = quote_etag-IsPlain content.etag h p in
    answer-unchanged _ _ content
      (match_etag-plain _ _ _ _ cs cs e e plain (ap trim_weak e ∙ (trim_weak-quoted cs ∙ sym e)))
write_content-revalidated content true h p =
    let (plain, cs, e) = quote_etag-IsPlain content.etag h p in
    answer-unchanged _ _ content (
      match_etag-plain _ _ _ _ _ cs (codes-append "W/" _) e
        (subst (All IsPlain) (sym (codes-append "W/" _)) ((refl, refl), ((refl, refl), plain)))
        (ap trim_weak (codes-append "W/" _)))
