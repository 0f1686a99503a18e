-- ===== src/Network/Hostname.antt =====
-- Which texts `is_valid_hostname` accepts: a grammar of labels between dots.
use mathlib.Core.List.{append-nil, append_assoc}
use mathlib.Core.Path.{subst}
use psx_xp_mover.Base.{
  ℕ, suc, ◌≤◌, ◌≡◌, ◌≢◌, ◌↔◌, ◌⊎◌, inl, inr, refl, sym, ap, ◌∙◌, arith, Bool, true, false,
  Bool-cases, some, [], ◌∷◌, ◌++◌, All, length, ◌==◌, if◌then◌else◌,
}
use psx_xp_mover.Utils.{Bytes}
use psx_xp_mover.Network.{
  is_valid_hostname_char, may_be_ipv6_address, hostname_chars, is_valid_hostname,
}

-- a digit, a letter or a hyphen
abbrev pub IsLabelChar : ℕ → Type 0
IsLabelChar ch =
    ((b'0' ≤ ch) × (ch ≤ b'9'))
    ⊎ (((b'a' ≤ ch) × (ch ≤ b'z')) ⊎ (((b'A' ≤ ch) × (ch ≤ b'Z')) ⊎ (ch ≡ b'-')))

-- The code takes these characters and the dot, and no other.
is_valid_hostname_char_iff :
    (ch : ℕ) → ((is_valid_hostname_char ch ≡ true) × (ch ≢ b'.')) ↔ IsLabelChar ch
unfolding is_valid_hostname_char
is_valid_hostname_char_iff ch = ground arith

-- at least one of them
abbrev pub IsLabel : Bytes → Type 0
IsLabel s = (s ≢ []) × All IsLabelChar s

-- Labels between single dots; a dot may follow the last label.
pub data IsName : Bytes → Type 0 where
  single : {l : Bytes} → IsLabel l → IsName l
  absolute : {l : Bytes} → IsLabel l → IsName (l ++ b'.' ∷ [])
  dotted : {l s : Bytes} → IsLabel l → IsName s → IsName (l ++ b'.' ∷ s)

-- Behind a first character the index does not matter; in a label, and behind a dot.
abbrev in_label : Bytes → Bool
in_label s = hostname_chars 1 false s

abbrev after_dot : Bytes → Bool
after_dot s = hostname_chars 1 true s

index_irrelevant :
    (s : Bytes) (i j : ℕ) (p : Bool) → hostname_chars (suc i) p s ≡ hostname_chars (suc j) p s
unfolding hostname_chars
index_irrelevant [] i j p = refl
index_irrelevant (ch ∷ s) i j p =
    ground
      (arith, index_irrelevant s (suc i) (suc j) true, index_irrelevant s (suc i) (suc j) false)

in_label_step :
    (ch : ℕ) (s : Bytes)
    → in_label (ch ∷ s) ≡ (
        if is_valid_hostname_char ch then if ch == b'.' then after_dot s else in_label s else false)
unfolding hostname_chars
in_label_step ch s = rw (index_irrelevant s 1 0 true, index_irrelevant s 1 0 false) (ground arith)

after_dot_step :
    (ch : ℕ) (s : Bytes)
    → after_dot (ch ∷ s)
      ≡ (if is_valid_hostname_char ch then if ch == b'.' then false else in_label s else false)
unfolding hostname_chars
after_dot_step ch s = rw (index_irrelevant s 1 0 false) (ground arith)

-- A leading dot is refused as a second dot is.
start_lem : (s : Bytes) → s ≢ [] → hostname_chars 0 false s ≡ after_dot s
unfolding hostname_chars
start_lem [] h = absurd (h refl)
start_lem (ch ∷ s) h = rw (index_irrelevant s 1 0 false) (ground arith)

in_label-skip : (l s : Bytes) → All IsLabelChar l → in_label (l ++ s) ≡ in_label s
in_label-skip [] s h = refl
in_label-skip (ch ∷ l) s h =
    in_label_step ch (l ++ s)
    ∙ ground (arith, (is_valid_hostname_char_iff ch).1 h.0, in_label-skip l s h.1)

after_dot-skip : (l s : Bytes) → IsLabel l → after_dot (l ++ s) ≡ in_label s
after_dot-skip [] s h = absurd (h.0 refl)
after_dot-skip (ch ∷ l) s h =
    after_dot_step ch (l ++ s)
    ∙ ground (arith, (is_valid_hostname_char_iff ch).1 h.1.0, in_label-skip l s h.1.1)

dot_is_valid : is_valid_hostname_char b'.' ≡ true
unfolding is_valid_hostname_char
dot_is_valid = refl

in_label-dot : (s : Bytes) → in_label (b'.' ∷ s) ≡ after_dot s
in_label-dot s = in_label_step b'.' s ∙ rw dot_is_valid refl

empty_is_good : (p : Bool) → hostname_chars 1 p [] ≡ true
unfolding hostname_chars
empty_is_good p = refl

complete : {s : Bytes} → IsName s → after_dot s ≡ true
complete (single {l} w) =
    ap after_dot (sym (append-nil l)) ∙ after_dot-skip l [] w ∙ empty_is_good false
complete (absolute {l} w) = after_dot-skip l (b'.' ∷ []) w ∙ in_label-dot [] ∙ empty_is_good true
complete (dotted {l} {s} w n) = after_dot-skip l (b'.' ∷ s) w ∙ in_label-dot s ∙ complete n

snoc-IsLabel : (l : Bytes) (ch : ℕ) → All IsLabelChar l → IsLabelChar ch → IsLabel (l ++ ch ∷ [])
snoc-IsLabel [] ch h k = (λ e. ground arith, (k, tt))
snoc-IsLabel (x ∷ l) ch h k = (λ e. ground arith, (h.0, (snoc-IsLabel l ch h.1 k).1))

-- behind a label, and behind a dot
abbrev IsSound : Bytes → Type 0
IsSound s =
    ((l : Bytes) → IsLabel l → in_label s ≡ true → IsName (l ++ s))
    × (after_dot s ≡ true → (s ≡ []) ⊎ IsName s)

IsSound-dot : (s : Bytes) → IsSound s → IsSound (b'.' ∷ s)
IsSound-dot s ih = (
  λ l w h. elim (ih.1 (rw (in_label-dot s) at h)) [
    | inl e ↦ rw e (absolute w)
    | inr n ↦ dotted w n
  ],
  λ h. absurd (let h' = rw (after_dot_step b'.' s, dot_is_valid) at h in ground arith),
)

IsSound-char : (ch : ℕ) (s : Bytes) → IsLabelChar ch → IsSound s → IsSound (ch ∷ s)
IsSound-char ch s k ih =
    let good = (is_valid_hostname_char_iff ch).1 k in
    let other : (ch == b'.') ≡ false = ground (arith, good.1) in
    (
      λ l w h. subst IsName (append_assoc l (ch ∷ []) s) (
          ih.0 (l ++ ch ∷ []) (snoc-IsLabel l ch w.1 k)
            (rw (in_label_step ch s, good.0, other) at h)),
      λ h.
          inr (
            ih.0 (ch ∷ []) (snoc-IsLabel [] ch tt k)
              (rw (after_dot_step ch s, good.0, other) at h)),
    )

IsSound-bad : (ch : ℕ) (s : Bytes) → is_valid_hostname_char ch ≡ false → IsSound (ch ∷ s)
IsSound-bad ch s bad = (
  λ l w h. absurd (let h' = rw (in_label_step ch s, bad) at h in ground arith),
  λ h. absurd (let h' = rw (after_dot_step ch s, bad) at h in ground arith),
)

sound : (s : Bytes) → IsSound s
sound [] = (λ l w h. subst IsName (sym (append-nil l)) (single w), λ h. inl refl)
sound (ch ∷ s) = elim (Bool-cases (is_valid_hostname_char ch)) [
  | inr bad ↦ IsSound-bad ch s bad
  | inl good ↦ elim (Bool-cases (ch == b'.')) [
    | inl dot ↦ let e : ch ≡ b'.' = ground arith in rw e (IsSound-dot s (sound s))
    | inr other ↦
        IsSound-char ch s ((is_valid_hostname_char_iff ch).0 (good, λ e. ground arith)) (sound s)
  ]
]

hostname_chars_iff : (s : Bytes) → s ≢ [] → (hostname_chars 0 false s ≡ true) ↔ IsName s
hostname_chars_iff s h = rw (start_lem s h) (from, complete)
  where
    from : after_dot s ≡ true → IsName s
    from p = elim ((sound s).1 p) [ inl e ↦ absurd (h e) | inr n ↦ n ]

-- A host name is accepted exactly if it has 1 to 255 bytes and passes as an IPv6 address or is a
-- name: labels of letters, digits and hyphens between single dots, with a dot at the end or not.
pub is_valid_hostname_iff :
    (s : Bytes)
    → (is_valid_hostname (some s) ≡ true)
      ↔ ((1 ≤ length s) × (length s ≤ 255) × ((may_be_ipv6_address s ≡ true) ⊎ IsName s))
unfolding is_valid_hostname
is_valid_hostname_iff [] = ground arith
is_valid_hostname_iff (ch ∷ s) = ground (arith, hostname_chars_iff (ch ∷ s) (λ e. ground arith))
