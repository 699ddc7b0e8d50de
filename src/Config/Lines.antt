-- ===== src/Config/Lines.antt =====
-- config/config.go: how Load takes a line apart that has one field.
use malon.Base.{ℕ, ◌≡◌, refl, ap, ◌∙◌, false, some, [], ◌∷◌, ◌++◌, All, Result, append-nil, ◌==◌}
use malon.Base.Keys.{bytes_beq}
use malon.Packet.{Prefix}
use malon.Words.{
  Text, is_space, trim_left, trim_right, trim_space, split_eq, cons_first, has_comment,
  without_comment, put_back,
}
use malon.Config.{Loading, parse_line, parse_pair, parse_field}

-- A character of a key: neither white space nor an equals sign.
abbrev pub IsWordChar : ℕ → Type 0
IsWordChar c = (is_space c ≡ false) × ((c == 61) ≡ false)

-- A key: it starts neither a comment nor a section.
abbrev pub IsKey : Text → Type 0
IsKey [] = ⊥
IsKey (c ∷ s) = ((c == 35) ≡ false) × ((c == 91) ≡ false) × All IsWordChar (c ∷ s)

-- A value that stands in a line as it is: with no white space around it, and no comment in it.
pub record IsPlain (v : Text) : Type 0 where
  pub left : trim_left v ≡ v
  pub right : trim_right v ≡ v
  pub whole : has_comment v ≡ false

abbrev pub field_line : Text → Text → Text
field_line key v = key ++ (32 ∷ 61 ∷ 32 ∷ v)

-- The value with the space before it, which is gone where the value is empty.
abbrev spaced : Text → Text
spaced [] = []
spaced (c ∷ s) = 32 ∷ c ∷ s

trim_right-word : (k r : Text) → All IsWordChar k → trim_right (k ++ r) ≡ k ++ trim_right r
trim_right-word [] r w = refl
trim_right-word (c ∷ k) r ((not_space, _), w) =
    ap (put_back c) (trim_right-word k r w) ∙ kept (k ++ trim_right r)
  where
    kept : (x : Text) → put_back c x ≡ c ∷ x
    kept [] = rw not_space refl
    kept (d ∷ x) = refl

trim_right-value : (v : Text) → trim_right v ≡ v → trim_right (32 ∷ v) ≡ spaced v
trim_right-value [] h = refl
trim_right-value (c ∷ s) h = ap (put_back 32) h

trim_left-key : (k r : Text) → IsKey k → trim_left (k ++ r) ≡ k ++ r
trim_left-key [] r i = absurd i
trim_left-key (c ∷ k) r (_, _, ((not_space, _), _)) = rw not_space refl

trim_space-line :
    (k v : Text) → IsKey k → IsPlain v → trim_space (field_line k v) ≡ k ++ (32 ∷ 61 ∷ spaced v)
unfolding trim_space
trim_space-line k v i p =
    ap trim_right (trim_left-key k (32 ∷ 61 ∷ 32 ∷ v) i)
    ∙ trim_right-word k (32 ∷ 61 ∷ 32 ∷ v) (word k i)
    ∙ ap (λ x. k ++ x)
        (ap (λ x. put_back 32 (put_back 61 x)) (trim_right-value v p.right) ∙ kept (spaced v))
  where
    word : (k : Text) → IsKey k → All IsWordChar k
    word [] i = absurd i
    word (c ∷ s) (_, _, w) = w

    kept : (x : Text) → put_back 32 (put_back 61 x) ≡ 32 ∷ 61 ∷ x
    kept [] = refl
    kept (d ∷ x) = refl

split_eq-line :
    (k r : Text) → All IsWordChar k → split_eq (k ++ (32 ∷ 61 ∷ r)) ≡ some (k ++ 32 ∷ [], r)
unfolding split_eq
split_eq-line [] r w = refl
split_eq-line (c ∷ k) r ((_, no_eq), w) = rw no_eq (ap (cons_first c) (split_eq-line k r w))

trim_space-key : (k : Text) → IsKey k → trim_space (k ++ 32 ∷ []) ≡ k
unfolding trim_space
trim_space-key [] i = absurd i
trim_space-key (c ∷ k) i =
    ap trim_right (trim_left-key (c ∷ k) (32 ∷ []) i)
    ∙ trim_right-word (c ∷ k) (32 ∷ []) i.2
    ∙ append-nil (c ∷ k)

trim_space-value : (v : Text) → IsPlain v → trim_space (spaced v) ≡ v
unfolding trim_space
trim_space-value [] p = refl
trim_space-value (c ∷ s) p = ap trim_right p.left ∙ p.right

without_comment-plain : (v : Text) → IsPlain v → without_comment v ≡ v
unfolding without_comment
without_comment-plain v p = rw p.whole refl

module _ (parse_prefix : Text → Result Prefix) (to_lower : Text → Text) where
  parse_line-pair :
      (k r : Text) (l : Loading)
      → IsKey k
      → parse_line parse_prefix to_lower (k ++ r) l
        ≡ parse_pair parse_prefix to_lower (split_eq (k ++ r)) l
  unfolding parse_line bytes_beq
  parse_line-pair [] r l i = absurd i
  parse_line-pair (c ∷ k) r l (no_comment, no_section, _) = rw (no_comment, no_section) refl

  -- A line with a key and a plain value is read as that field.
  pub parse_line-field :
      (k v : Text) (l : Loading)
      → IsKey k
      → IsPlain v
      → parse_line parse_prefix to_lower (trim_space (field_line k v)) l
        ≡ parse_field parse_prefix to_lower l.section k v l
  parse_line-field [] v l i p = absurd i
  parse_line-field (c ∷ k) v l i p =
      ap (λ x. parse_line parse_prefix to_lower x l) (trim_space-line (c ∷ k) v i p)
      ∙ parse_line-pair (c ∷ k) (32 ∷ 61 ∷ spaced v) l i
      ∙ ap (λ x. parse_pair parse_prefix to_lower x l) (split_eq-line (c ∷ k) (spaced v) i.2)
      ∙ ap
          (λ x.
            parse_field parse_prefix to_lower l.section x (without_comment (trim_space (spaced v)))
              l)
          (trim_space-key (c ∷ k) i)
      ∙ ap (λ x. parse_field parse_prefix to_lower l.section (c ∷ k) x l)
          (ap without_comment (trim_space-value v p) ∙ without_comment-plain v p)
