-- ===== src/Domain/Paths/Normal.antt =====
-- Normalized paths: what `normalize_relative_path` of crates/reforge-domain/src/model.rs returns is
-- itself normal.
use windows_component_harnes.Prelude.{
  ℕ, Bool, false, ◌||◌, ◌≡◌, ◌≢◌, refl, sym, ap, ◌∙◌, List, [], ◌∷◌, ◌++◌, any, All, nat_eq, arith,
}
use windows_component_harnes.Prelude.Order.{◌==◌, ==_iff, ==_refl}
use windows_component_harnes.Prelude.Text.{
  Text, codes, starts_with, has_control, is_control, text_ord,
}
use windows_component_harnes.Domain.Paths.{
  PathToken, KnownFolderToken, PathError, valid, is_separator, has_drive_prefix, has_colon, split,
  join, keep_segments, normalize_relative_path, new, validate, refuse_if,
}
use windows_component_harnes.Domain.Paths.Segments.{
  Lacks, AllLack, IsSegment, any-append, split-Lack, split-is_separator, valid-injective,
  valid-before, keep_segments-IsSegment, keep_segments-kept, split-join,
}

join-Lack : (p : ℕ → Bool) (ws : List Text) → p b'/' ≡ false → AllLack p ws → Lacks p (join ws)
unfolding join
join-Lack p [] h a = refl
join-Lack p (w ∷ []) h (l, a) = l
join-Lack p (w ∷ v ∷ ws) h (l, a) =
    any-append p w (b'/' ∷ join (v ∷ ws)) l (ground (arith, h, join-Lack p (v ∷ ws) h a))

colon-drive : (s : Text) → has_colon s ≡ false → has_drive_prefix s ≡ false
colon-drive [] h = refl
colon-drive (c ∷ []) h = refl
colon-drive (c ∷ d ∷ s) h = ground arith

-- a text that starts with no separator
abbrev HasNoRoot : Text → Type 0
HasNoRoot s =
    (starts_with s (codes "/") ≡ false)
    × (starts_with s (codes "\\") ≡ false)
    × (starts_with s (codes "//") ≡ false)
    × (starts_with s (codes "\\\\") ≡ false)

HasNoRoot-cons : (c : ℕ) (s : Text) → is_separator c ≡ false → HasNoRoot (c ∷ s)
HasNoRoot-cons c s h = (ground arith, ground arith, ground arith, ground arith)

not_empty : (w : Text) → (w == []) ≡ false → w ≢ []
not_empty w h e = ground (arith, h, (==_iff w []).1 e)

HasNoRoot-join : (ws : List Text) → All IsSegment ws → HasNoRoot (join ws)
unfolding join
HasNoRoot-join [] a = (refl, refl, refl, refl)
HasNoRoot-join ([] ∷ ws) (s, a) = absurd (not_empty [] s.kept_length refl)
HasNoRoot-join ((c ∷ w) ∷ []) (s, a) = HasNoRoot-cons c w (ground (arith, s.no_separator))
HasNoRoot-join ((c ∷ w) ∷ v ∷ ws) (s, a) =
    HasNoRoot-cons c (w ++ (b'/' ∷ join (v ∷ ws))) (ground (arith, s.no_separator))

segments-Lack :
    (p : ℕ → Bool) (ws : List Text)
    → ((w : Text) → IsSegment w → Lacks p w)
    → All IsSegment ws
    → AllLack p ws
segments-Lack p [] f a = tt
segments-Lack p (w ∷ ws) f (s, a) = (f w s, segments-Lack p ws f a)

kept_join : (ws : List Text) → All IsSegment ws → keep_segments (split (join ws)) ≡ valid ws
unfolding split join keep_segments
kept_join [] a = refl
kept_join (w ∷ ws) a = rw (split-join w ws a) (keep_segments-kept (w ∷ ws) a)

normalize_relative_path-join :
    (ws : List Text) → All IsSegment ws → normalize_relative_path (join ws) ≡ valid (join ws)
unfolding normalize_relative_path
normalize_relative_path-join ws a =
    let (r1, r2, r3, r4) = HasNoRoot-join ws a in
    let colons =
      join-Lack (λ c. nat_eq c b':') ws refl
        (segments-Lack _ ws (λ w (s : IsSegment w). s.no_colon) a) in
    rw
      (
        join-Lack (λ c. nat_eq c 0) ws refl
            (segments-Lack _ ws (λ w (s : IsSegment w). s.no_nul) a),
        r1,
        r2,
        r3,
        r4,
        colon-drive (join ws) colons,
        join-Lack is_control ws refl (segments-Lack _ ws (λ w (s : IsSegment w). s.no_control) a),
        kept_join ws a,
      )
      refl

-- Where a relative path is normalized, it was joined from segments.
normalized_segments :
    (r s : Text)
    → normalize_relative_path r ≡ valid s
    → (ws : List Text) × (s ≡ join ws) × All IsSegment ws
unfolding normalize_relative_path
normalized_segments r s h =
    let (u1, g1, h1) = valid-before (refuse_if (any (λ c. nat_eq c 0) r) PathError.nul) _ h in
    let (u2, g2, h2) =
      valid-before
        (refuse_if (starts_with r (codes "/") || starts_with r (codes "\\")) PathError.absolute) _
        h1 in
    let (u3, g3, h3) = valid-before (refuse_if (has_drive_prefix r) PathError.drive_prefix) _ h2 in
    let (u4, g4, h4) =
      valid-before
        (refuse_if (starts_with r (codes "//") || starts_with r (codes "\\\\"))
          PathError.unc_prefix)
        _ h3 in
    let (u5, g5, h5) = valid-before (refuse_if (has_control r) PathError.control_character) _ h4 in
    let (ws, kept, joined) = valid-before (keep_segments (split r)) _ h5 in
    (
      ws,
      sym (valid-injective joined),
      keep_segments-IsSegment (split r) ws (split-is_separator r)
          (split-Lack is_control r (not_refused (has_control r) _ u5 g5))
          (split-Lack (λ c. nat_eq c 0) r (not_refused (any (λ c. nat_eq c 0) r) _ u1 g1)) kept,
    )
  where
    not_refused : (b : Bool) (e : PathError) (u : Unit {0}) → refuse_if b e ≡ valid u → b ≡ false
    not_refused b e u h = ground arith

-- A token that `PathToken::new` builds is one that `PathToken::validate` accepts.
pub new-validate :
    (root : KnownFolderToken) (relative : Text) (token : PathToken)
    → new root relative ≡ valid token
    → validate token ≡ valid tt
unfolding new validate
new-validate root relative token h =
    let (s, normalized, built) = valid-before (normalize_relative_path relative) _ h in
    let (ws, joined, segments) = normalized_segments relative s normalized in
    let same : token.relative ≡ join ws =
      ap (λ (t : PathToken). t.relative) (sym (valid-injective built)) ∙ joined in
    rw (same, normalize_relative_path-join ws segments, ==_refl (join ws)) refl
