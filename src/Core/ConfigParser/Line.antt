-- ===== src/Core/ConfigParser/Line.antt =====
-- What the parser reads from a line (src/core/ConfigParser.cpp).
use code_tribunal.Prelude.{
  ℕ, ◌≡◌, ◌≢◌, ◌≤◌, refl, sym, ap, ◌∙◌, Bool, true, false, ◌==◌, some, [], ◌∷◌, ◌++◌, Text, All,
  All-append, length, if◌then◌else◌, Bool-cases, inl, inr, arith,
}
use code_tribunal.Prelude.Stoi.{is_space, skip_spaces}
use code_tribunal.Core.ConfigParser.{
  trim_end, trim, remove_comment, accept, split_assignment, parse_trimmed, parse_line,
}
use code_tribunal.Core.ConfigParser.Trim.{
  IsSpace, skip_pad, skip_stop, end_stop, trim_skip, trim-trim_end, trim_pad,
}
use code_tribunal.Prelude.Search.{IsFree, find_char_stop, find_char-none, take_append, drop_append}

All-if : (P : ℕ → Type 0) (b : Bool) (s t : Text) → All P s → All P t → All P (if b then s else t)
All-if P true s t hs ht = hs
All-if P false s t hs ht = ht

All-skip : (P : ℕ → Type 0) (s : Text) → All P s → All P (skip_spaces s)
unfolding skip_spaces
All-skip P [] h = h
All-skip P (c ∷ s) h = All-if P (is_space c) (skip_spaces s) (c ∷ s) (All-skip P s h.1) h

All-end : (P : ℕ → Type 0) (s : Text) → All P s → All P (trim_end s)
unfolding trim_end
All-end P [] h = h
All-end P (c ∷ s) h = All-if P _ [] (c ∷ trim_end s) tt (h.0, All-end P s h.1)

All-trim : (P : ℕ → Type 0) (s : Text) → All P s → All P (trim s)
unfolding trim
All-trim P s h = All-end P (skip_spaces s) (All-skip P s h)

trim_stop :
    (a b : Text) (c : ℕ) → is_space c ≡ false → trim (a ++ c ∷ b) ≡ skip_spaces a ++ c ∷ trim_end b
unfolding trim
trim_stop a b c h = ap trim_end (skip_stop a b c h) ∙ end_stop (skip_spaces a) b c h

is_space_eq : is_space b'=' ≡ false
unfolding is_space
is_space_eq = refl

is_space_hash : is_space b'#' ≡ false
unfolding is_space
is_space_hash = refl

-- Is the text a comment?
unfoldable pub starts_comment : Text → Bool
starts_comment [] = false
starts_comment (c ∷ s) = c == b'#'

parse_trimmed_stop :
    (a b : Text) (c : ℕ)
    → starts_comment (a ++ c ∷ b) ≡ false
    → parse_trimmed (a ++ c ∷ b) ≡ split_assignment (a ++ c ∷ b)
unfolding parse_trimmed starts_comment
parse_trimmed_stop [] b c h = rw h refl
parse_trimmed_stop (x ∷ a) b c h = rw h refl

starts_comment_stop :
    (a b : Text) → starts_comment a ≡ false → starts_comment (a ++ b'=' ∷ b) ≡ false
unfolding starts_comment
starts_comment_stop [] b h = refl
starts_comment_stop (x ∷ a) b h = h

split_assignment_stop :
    (a b : Text)
    → IsFree b'=' a
    → split_assignment (a ++ b'=' ∷ b) ≡ accept (trim a) (remove_comment (trim b))
unfolding split_assignment
split_assignment_stop a b h =
    rw (find_char_stop b'=' a b h, split_assignment)
      (rw (take_append a (b'=' ∷ b), drop_append a b b'=') refl)

-- The first `=` ends the key.
pub parse_line_split :
    (a b : Text)
    → IsFree b'=' a
    → starts_comment (skip_spaces a) ≡ false
    → parse_line (a ++ b'=' ∷ b) ≡ accept (trim a) (remove_comment (trim b))
unfolding parse_line
parse_line_split a b h k =
    ap parse_trimmed (trim_stop a b b'=' is_space_eq)
    ∙ parse_trimmed_stop (skip_spaces a) (trim_end b) b'='
        (starts_comment_stop (skip_spaces a) (trim_end b) k)
    ∙ split_assignment_stop (skip_spaces a) (trim_end b) (All-skip _ a h)
    ∙ rw (trim_skip a, trim-trim_end b) refl

-- A comment is no part of the value.
pub remove_comment-trim :
    (v c : Text)
    → IsFree b'#' v
    → (remove_comment (trim v) ≡ trim v) × (remove_comment (trim (v ++ b'#' ∷ c)) ≡ trim v)
unfolding remove_comment
remove_comment-trim v c h = (
  rw (find_char-none b'#' (trim v) (All-trim _ v h), remove_comment) refl,
  ap remove_comment (trim_stop v c b'#' is_space_hash)
      ∙ rw (find_char_stop b'#' (skip_spaces v) (trim_end c) (All-skip _ v h), remove_comment)
          (ap trim (take_append (skip_spaces v) (b'#' ∷ trim_end c)) ∙ trim_skip v),
)

accept_filled : (k v : Text) → k ≢ [] → v ≢ [] → accept k v ≡ some (k, v)
unfolding accept
accept_filled [] v h g = absurd (h refl)
accept_filled (x ∷ k) [] h g = absurd (g refl)
accept_filled (x ∷ k) (y ∷ v) h g = refl

starts_comment_pad :
    (key b : Text) → key ≢ [] → starts_comment key ≡ false → starts_comment (key ++ b) ≡ false
unfolding starts_comment
starts_comment_pad [] b n h = absurd (n refl)
starts_comment_pad (x ∷ key) b n h = h

length-skip_le : (s : Text) → length (skip_spaces s) ≤ length s
unfolding skip_spaces
length-skip_le [] = omega arith
length-skip_le (c ∷ s) = ground (arith, length-skip_le s)

length-end_le : (s : Text) → length (trim_end s) ≤ length s
unfolding trim_end
length-end_le [] = omega arith
length-end_le (c ∷ s) = ground (arith, length-end_le s)

length-trim_le : (s : Text) → length (trim s) ≤ length s
unfolding trim
length-trim_le s = omega (arith, length-end_le (skip_spaces s), length-skip_le s)

trim_blank : (x : ℕ) (s : Text) → is_space x ≡ true → trim (x ∷ s) ≡ trim s
unfolding trim skip_spaces
trim_blank x s h = rw h refl

-- A trimmed text starts with no white space.
trimmed_head : (x : ℕ) (s : Text) → trim (x ∷ s) ≡ x ∷ s → is_space x ≡ false
trimmed_head x s h = elim (Bool-cases (is_space x)) [
  | inl e ↦ absurd (omega (arith, ap length (sym (trim_blank x s e) ∙ h), length-trim_le s))
  | inr e ↦ e
]

-- A key as it can stand in the file.
pub record IsKey (key : Text) : Type 0 where
  pub trimmed : trim key ≡ key
  pub filled : key ≢ []
  pub not_comment : starts_comment key ≡ false
  pub one_part : IsFree b'=' key

-- A value as it can stand in the file.
pub record IsValue (value : Text) : Type 0 where
  pub trimmed : trim value ≡ value
  pub filled : value ≢ []
  pub one_part : IsFree b'#' value

space-IsFree_eq : (s : Text) → All IsSpace s → IsFree b'=' s
unfolding is_space
space-IsFree_eq [] h = tt
space-IsFree_eq (c ∷ s) h = (ground (arith, h.0), space-IsFree_eq s h.1)

space-IsFree_hash : (s : Text) → All IsSpace s → IsFree b'#' s
unfolding is_space
space-IsFree_hash [] h = tt
space-IsFree_hash (c ∷ s) h = (ground (arith, h.0), space-IsFree_hash s h.1)

key_start :
    (key b : Text)
    → trim key ≡ key
    → key ≢ []
    → starts_comment key ≡ false
    → starts_comment (skip_spaces (key ++ b)) ≡ false
unfolding skip_spaces starts_comment
key_start [] b t n h = absurd (n refl)
key_start (x ∷ key) b t n h = rw (trimmed_head x key t) h

pad-IsFree :
    (ch : ℕ) (p s q : Text) → IsFree ch p → IsFree ch s → IsFree ch q → IsFree ch (p ++ (s ++ q))
pad-IsFree ch p s q hp hs hq = All-append _ p (s ++ q) hp (All-append _ s q hs hq)

parse_line_padded :
    (key b a c : Text)
    → IsKey key
    → All IsSpace a
    → All IsSpace b
    → parse_line ((a ++ (key ++ b)) ++ b'=' ∷ c) ≡ accept key (remove_comment (trim c))
parse_line_padded key b a c k ha hb =
    parse_line_split (a ++ (key ++ b)) c
      (pad-IsFree b'=' a key b (space-IsFree_eq a ha) (k.one_part) (space-IsFree_eq b hb))
      (ap starts_comment (skip_pad a (key ++ b) ha)
        ∙ key_start key b (k.trimmed) (k.filled) (k.not_comment))
    ∙ ap (λ t. accept t (remove_comment (trim c))) (trim_pad a key b ha hb ∙ k.trimmed)

remove_comment_padded :
    (value c d comment : Text)
    → IsValue value
    → All IsSpace c
    → All IsSpace d
    → (remove_comment (trim (c ++ (value ++ d))) ≡ value)
      × (remove_comment (trim ((c ++ (value ++ d)) ++ b'#' ∷ comment)) ≡ value)
remove_comment_padded value c d comment v hc hd =
    let free =
      pad-IsFree b'#' c value d (space-IsFree_hash c hc) (v.one_part) (space-IsFree_hash d hd) in
    let (plain, commented) = remove_comment-trim (c ++ (value ++ d)) comment free in
    let bare = trim_pad c value d hc hd ∙ v.trimmed in (plain ∙ bare, commented ∙ bare)

-- A line that writes a key, an equals sign and a value reads back as that key and that value, whatever
-- white space stands before and behind each of the two, with a comment behind the value or without. The
-- key and the value are not empty and neither begins nor ends with white space; the key has no equals
-- sign and does not begin with `#`, the value has no `#`.
pub parse_line-assignment :
    (key value a b c d comment : Text)
    → IsKey key
    → IsValue value
    → All IsSpace a
    → All IsSpace b
    → All IsSpace c
    → All IsSpace d
    → (parse_line ((a ++ (key ++ b)) ++ b'=' ∷ (c ++ (value ++ d))) ≡ some (key, value))
      × (parse_line ((a ++ (key ++ b)) ++ b'=' ∷ ((c ++ (value ++ d)) ++ b'#' ∷ comment))
          ≡ some (key, value))
parse_line-assignment key value a b c d comment k v ha hb hc hd =
    let (plain, commented) = remove_comment_padded value c d comment v hc hd in
    let filled = accept_filled key value (k.filled) (v.filled) in
    (
      parse_line_padded key b a _ k ha hb ∙ ap (accept key) plain ∙ filled,
      parse_line_padded key b a _ k ha hb ∙ ap (accept key) commented ∙ filled,
    )
