-- ===== src/Http/Named.antt =====
-- What a URL of the head names, where `parse_head_url` of nauti-fabric/src/plan.rs accepts it.
use Prim.Native.Char.{Char, code}
use Prim.Native.String.{[], ◌∷◌, ◌++◌ as cat}
use text.Mathlib.TextLemmas.{nil-append, cons-append}
use nauti_virtualizer.Prelude.{
  ℕ, ◌==◌, String, true, false, Option, none, some, ◌≡◌, refl, sym, ap, ◌∙◌, inl, inr, arith,
  Bool-cases, subst,
}
use nauti_virtualizer.Vmm.Texts.{is_empty}
use nauti_virtualizer.Plan.Planner.{Result, ok, err}
use nauti_virtualizer.Http.Utf8.{from_u32, from_u32-code}
use nauti_virtualizer.Http.Text.{
  trim, up_to, strip_prefix, behind, or_here, rsplit_once, unsigned, only_brackets,
}
use nauti_virtualizer.Http.Url.{
  u16_bound, default_head_port, bad, checked_host, with_port, split_port, parse_authority,
  after_scheme, parse_head_url,
}

unfoldable pub NoColon : String → Type 0
NoColon [] = Unit
NoColon (c ∷ s) = (code c == 58 ≡ false) × NoColon s

-- The host and the port of an authority: the port stands after its last colon, or is 8080.
pub data IsAuthority (authority host : String) (port : ℕ) : Type 0 where
  plain :
      NoColon authority
      → host ≡ authority
      → port ≡ default_head_port
      → IsAuthority authority host port
  numbered :
      (colon : Char) (digits : String)
      → code colon ≡ 58
      → authority ≡ cat host (colon ∷ digits)
      → unsigned 10 u16_bound digits ≡ some port
      → IsAuthority authority host port

-- The URL is `http://`, the authority up to the next slash, and anything.
pub record NamesHead (base host : String) (port : ℕ) : Type 0 where
  pub rest : String
  pub scheme : base ≡ cat "http://" rest
  pub authority : IsAuthority (trim (up_to 47 rest)) host port
  pub is_host : only_brackets host ≡ false

same_char : (c d : Char) → code c == code d ≡ true → c ≡ d
same_char c d h =
    let same : code c ≡ code d = ground (arith, h) in
    sym (from_u32-code c) ∙ ap from_u32 same ∙ from_u32-code d

strip_prefix-some : (p s rest : String) → strip_prefix p s ≡ some rest → s ≡ cat p rest
unfolding strip_prefix
strip_prefix-some [] s rest h =
    let same : s ≡ rest = ground (arith, h) in same ∙ sym (nil-append rest)
strip_prefix-some (d ∷ p) [] rest h = absurd (ground (arith, h))
strip_prefix-some (d ∷ p) (c ∷ s) rest h = elim (Bool-cases (code c == code d)) [
  | inl same ↦
      let ih = strip_prefix-some p s rest (ground (arith, h, same)) in
      ap (λ x. x ∷ s) (same_char c d same) ∙ ap (λ t. d ∷ t) ih ∙ sym (cons-append d p rest)
  | inr apart ↦ absurd (ground (arith, h, apart))
]

-- What `rsplit_once` answers for a colon.
Split : String → Option (String × String) → Type 0
Split s none = NoColon s
Split s (some (a, b)) = (colon : Char) × (code colon ≡ 58) × (s ≡ cat a (colon ∷ b))

or_here-Split :
    (c : Char) (s : String) (o : Option (String × String))
    → Split s o
    → Split (c ∷ s) (or_here (code c == 58) s (behind c o))
unfolding Split NoColon or_here behind
or_here-Split c s none h = elim (Bool-cases (code c == 58)) [
  | inl e ↦ rw e (c, ground (arith, e), sym (nil-append (c ∷ s)))
  | inr e ↦ rw e (e, h)
]
or_here-Split c s (some (a, b)) (colon, is_colon, same) =
    (colon, is_colon, ap (λ t. c ∷ t) same ∙ sym (cons-append c a (colon ∷ b)))

rsplit_once-Split : (s : String) → Split s (rsplit_once 58 s)
unfolding rsplit_once Split NoColon
rsplit_once-Split [] = tt
rsplit_once-Split (c ∷ s) = or_here-Split c s (rsplit_once 58 s) (rsplit_once-Split s)

module _ (quoted : String → String) (base : String) where
  -- What a result of `parse_head_url` says of the authority.
  Of : String → Result (String × ℕ) → Type 0
  Of authority (err e) = Unit
  Of authority (ok (host, port)) = IsAuthority authority host port × (only_brackets host ≡ false)

  Of-checked_host :
      (authority host : String) (port : ℕ)
      → IsAuthority authority host port
      → Of authority (checked_host quoted base host port)
  unfolding Of checked_host bad
  Of-checked_host authority host port h = elim (Bool-cases (only_brackets host)) [
    | inl e ↦ rw e tt
    | inr e ↦ rw e (h, e)
  ]

  Of-with_port :
      (authority host digits : String) (o : Option ℕ)
      → ((port : ℕ) → o ≡ some port → IsAuthority authority host port)
      → Of authority (with_port quoted base host digits o)
  unfolding Of with_port bad
  Of-with_port authority host digits none h = tt
  Of-with_port authority host digits (some port) h =
      Of-checked_host authority host port (h port refl)

  Of-split_port :
      (authority : String) (o : Option (String × String))
      → Split authority o
      → Of authority (split_port quoted base authority o)
  unfolding split_port Split
  Of-split_port authority none h =
      Of-checked_host authority authority default_head_port (plain h refl refl)
  Of-split_port authority (some (host, digits)) (colon, is_colon, same) =
      Of-with_port authority host digits (unsigned 10 u16_bound digits)
        (λ port e. numbered colon digits is_colon same e)

  Of-parse_authority : (authority : String) → Of authority (parse_authority quoted base authority)
  unfolding Of parse_authority bad
  Of-parse_authority authority = elim (Bool-cases (is_empty authority)) [
    | inl e ↦ rw e tt
    | inr e ↦
        rw e (Of-split_port authority (rsplit_once 58 authority) (rsplit_once-Split authority))
  ]

  Named : Result (String × ℕ) → Type 0
  Named (err e) = Unit
  Named (ok (host, port)) = NamesHead base host port

  Of-Named :
      (rest : String) (r : Result (String × ℕ))
      → base ≡ cat "http://" rest
      → Of (trim (up_to 47 rest)) r
      → Named r
  unfolding Of Named
  Of-Named rest (err e) scheme h = tt
  Of-Named rest (ok (host, port)) scheme (authority, is_host) = record {
    rest = rest;
    scheme = scheme;
    authority = authority;
    is_host = is_host;
  }

  Named-after_scheme :
      (o : Option String)
      → ((rest : String) → o ≡ some rest → base ≡ cat "http://" rest)
      → Named (after_scheme quoted base o)
  unfolding Named after_scheme bad
  Named-after_scheme none h = tt
  Named-after_scheme (some rest) h =
      Of-Named rest (parse_authority quoted base (trim (up_to 47 rest))) (h rest refl)
        (Of-parse_authority (trim (up_to 47 rest)))

  -- A URL that `parse_head_url` accepts names the host and the port that it answers.
  pub parse_head_url-NamesHead :
      (host : String) (port : ℕ)
      → parse_head_url quoted base ≡ ok (host, port)
      → NamesHead base host port
  unfolding parse_head_url Named
  parse_head_url-NamesHead host port e = subst Named e (
      Named-after_scheme (strip_prefix "http://" base)
        (λ rest h. strip_prefix-some "http://" base rest h))
