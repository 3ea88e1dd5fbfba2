-- ===== src/Config/Windows/Clock.antt =====
-- Texts `HH:MM` are compared as the minutes of the day.
use mirrorhub.Base.{
  ℕ, ◌+◌, ◌*◌, ◌/◌, ◌%◌, ◌<◌, ◌≡◌, refl, ap, ◌∙◌, false, ◌&&◌, ◌||◌, some, [], ◌∷◌, ◌++◌, arith,
  leb, ◌==◌, if◌then◌else◌,
}
use mirrorhub.Base.Text.{Text, trim_space}
use mirrorhub.Base.Split.{text_leb}
use mirrorhub.Config.Windows.{
  hm, two_digits, in_hm_window, normalize_hm, normalized, read_number, read_digits, skip_blanks,
}

abbrev pub minutes : ℕ → ℕ → ℕ
minutes h m = h * 60 + m

leb-hm :
    (h m h' m' : ℕ)
    → h < 24
    → m < 60
    → h' < 24
    → m' < 60
    → text_leb (hm h m) (hm h' m') ≡ leb (minutes h m) (minutes h' m')
unfolding text_leb
leb-hm h m h' m' a b c d = ground arith

-- A clock time lies in a window exactly when its minute of the day lies between the window's bounds,
-- both included, or, where the window passes midnight, when it lies outside the rest of the day.
pub in_hm_window_lem :
    (h m h1 m1 h2 m2 : ℕ)
    → h < 24
    → m < 60
    → h1 < 24
    → m1 < 60
    → h2 < 24
    → m2 < 60
    → let t = minutes h m in
      let a = minutes h1 m1 in
      let b = minutes h2 m2 in
      in_hm_window (hm h m) (hm h1 m1) (hm h2 m2)
      ≡ (if leb a b then leb a t && leb t b else (leb a t || leb t b))
unfolding in_hm_window
in_hm_window_lem h m h1 m1 h2 m2 ph pm ph1 pm1 ph2 pm2 =
    rw
      (
        leb-hm h1 m1 h2 m2 ph1 pm1 ph2 pm2,
        leb-hm h1 m1 h m ph1 pm1 ph pm,
        leb-hm h m h2 m2 ph pm ph2 pm2,
      )
      refl

read_two :
    (n : ℕ) (r : Text) → n < 100 → read_number (two_digits n ++ b':' ∷ r) ≡ some (n, b':' ∷ r)
unfolding read_number read_digits skip_blanks
read_two n r h = ground arith

read_end : (n : ℕ) → n < 100 → read_number (two_digits n) ≡ some (n, [])
unfolding read_number read_digits skip_blanks
read_end n h = ground arith

trim_hm : (h m : ℕ) → trim_space (hm h m) ≡ hm h m
unfolding trim_space
trim_hm h m =
    let first : (48 + h / 10 == 32 || (leb 9 (48 + h / 10) && leb (48 + h / 10) 13)) ≡ false =
      ground arith in
    let last : (48 + m % 10 == 32 || (leb 9 (48 + m % 10) && leb (48 + m % 10) 13)) ≡ false =
      ground arith in
    rw first (rw last refl)

normalized-hm : (h m : ℕ) → h < 24 → m < 60 → normalized (hm h m) ≡ hm h m
unfolding normalized
normalized-hm h m p q = ground (arith, read_two h (two_digits m), read_end m)

-- Normalizing a text `HH:MM` of a time of day gives it back.
pub normalize_hm_lem : (h m : ℕ) → h < 24 → m < 60 → normalize_hm (hm h m) ≡ hm h m
unfolding normalize_hm
normalize_hm_lem h m p q = ap normalized (trim_hm h m) ∙ normalized-hm h m p q
