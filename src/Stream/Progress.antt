-- ===== src/Stream/Progress.antt =====
-- pkg/progressbar/progressbar.go: the bar's state, and how it is drawn. What the color package
-- makes of the texts before the bar enters by its length, `start_length`.
use cocos.Common.{
  ℕ, zero, suc, ◌+◌, ◌-◌, ◌*◌, ◌/◌, ◌<◌, ◌≤◌, ◌≡◌, refl, ◌⊎◌, inl, inr, Bool, Option, none, some,
  String, arith, ltb, leb, eqb, if◌then◌else◌, Bool-cases, ℤ, pos, negsuc,
}
use cocos.Common.Exec.{Result, ok, err}

pub record ProgressBar : Type 0 where
  pub number_of_bytes : ℕ
  pub current_uploaded_bytes : ℕ
  pub current_upload_percentage : ℕ
  pub description : String
  pub max_width : ℕ
  pub is_download : Bool

pub data ProgressError : Type 0 where
  -- attempted to add so many bytes, of which only so many remain
  exceeds_total : ℕ → ℕ → ProgressError
  plain : String → ProgressError
  -- a panic: division by zero, a negative repeat count, or a slice out of bounds
  panic : ProgressError

unfoldable pub new : Bool → ProgressBar
new is_download = record {
  number_of_bytes = 0;
  current_uploaded_bytes = 0;
  current_upload_percentage = 0;
  description = "";
  max_width = 0;
  is_download = is_download;
}

unfoldable pub reset : String → ℕ → ProgressBar → ProgressBar
reset description total p = record p {
  current_uploaded_bytes = 0;
  current_upload_percentage = 0;
  number_of_bytes = total;
  description = description;
}

-- The percentage is computed after the sum is stored, with a panic where there are no bytes.
unfoldable pub update_progress : ℕ → ProgressBar → Result ProgressError ProgressBar
update_progress n p =
    if ltb p.number_of_bytes (p.current_uploaded_bytes + n)
    then err (exceeds_total n (p.number_of_bytes - p.current_uploaded_bytes))
    else if eqb p.number_of_bytes 0
    then err panic
    else ok (record p {
      current_uploaded_bytes = p.current_uploaded_bytes + n;
      current_upload_percentage = (p.current_uploaded_bytes + n) * 100 / p.number_of_bytes;
    })

-- a - b, and -n, as an int.
abbrev pub sub_ℕ : ℕ → ℕ → ℤ
sub_ℕ a b = if leb b a then pos (a - b) else negsuc (b - a - 1)

abbrev pub neg : ℕ → ℤ
neg zero = pos 0
neg (suc n) = negsuc n

-- width * percentage / 100, which Go truncates towards zero.
abbrev pub share : ℤ → ℕ → ℤ
share (pos w) percentage = pos (w * percentage / 100)
share (negsuc w) percentage = neg (suc w * percentage / 100)

abbrev pub at_least_one : ℤ → ℤ
at_least_one (pos zero) = pos 1
at_least_one other = other

abbrev pub sub_ℤ : ℤ → ℤ → ℤ
sub_ℤ (pos a) (pos b) = sub_ℕ a b
sub_ℤ (pos a) (negsuc b) = pos (a + suc b)
sub_ℤ (negsuc a) (pos b) = negsuc (a + b)
sub_ℤ (negsuc a) (negsuc b) = sub_ℕ b a

-- strings.Repeat panics on a negative count.
abbrev pub repeats : ℤ → ℤ → Result ProgressError (ℕ × ℕ)
repeats (pos body) (pos padding) = ok (body, padding)
repeats (pos body) (negsuc n) = err panic
repeats (negsuc n) padding = err panic

-- The widths of the bar's two parts. The bracket and " [100%]" that follow take 8 bytes.
unfoldable pub bar_widths : ℕ → ℕ → ℕ → Result ProgressError (ℕ × ℕ)
bar_widths width start_length percentage =
    let progress_width = sub_ℕ width (start_length + 8) in
    let body = at_least_one (share progress_width percentage) in
    repeats body (sub_ℤ progress_width body)

-- The terminal's width, and what the writes to it answer.
pub record RenderIo : Type 0 where
  pub width : Option ℕ
  pub start_length : ℕ
  pub clear : Option String
  pub write : Option String

abbrev pub written : Option String → ProgressBar → Result ProgressError ProgressBar
written none p = ok p
written (some e) p = err (plain e)

abbrev pub drawn :
    Option String → ProgressBar → Result ProgressError (ℕ × ℕ) → Result ProgressError ProgressBar
drawn write p (err e) = err e
drawn write p (ok widths) = written write p

abbrev pub draw : RenderIo → ℕ → ProgressBar → Option String → Result ProgressError ProgressBar
draw io width p (some e) = err (plain e)
draw io width p none =
    drawn io.write p (bar_widths width io.start_length p.current_upload_percentage)

-- Without a terminal nothing is drawn.
abbrev pub render_at : RenderIo → ProgressBar → Option ℕ → Result ProgressError ProgressBar
render_at io p none = ok p
render_at io p (some width) =
    draw io width (record p { max_width = if ltb p.max_width width then width else p.max_width })
      io.clear

unfoldable pub render_progress_bar : RenderIo → ProgressBar → Result ProgressError ProgressBar
unfolding bar_widths
render_progress_bar io p = render_at io p io.width

share-le : (w percentage : ℕ) → percentage ≤ 100 → w * percentage / 100 ≤ w
share-le w percentage h = let grows : w * percentage ≤ w * 100 = grind arith in omega arith

negative_panics :
    (k q : ℕ) → repeats (at_least_one (neg q)) (sub_ℤ (negsuc k) (at_least_one (neg q))) ≡ err panic
negative_panics k zero = refl
negative_panics k (suc q) = refl

parts_fit :
    (w b : ℕ)
    → b ≤ w
    → ((0 < w)
        × ((body : ℕ) × (padding : ℕ) × (repeats
                (at_least_one (pos b))
                (sub_ℤ (pos w) (at_least_one (pos b)))
              ≡ ok (body, padding))
            × (body + padding ≡ w)
            × (0 < body)))
      ⊎ ((w ≡ 0)
          × (repeats (at_least_one (pos b)) (sub_ℤ (pos w) (at_least_one (pos b))) ≡ err panic))
parts_fit zero zero h = inr (refl, refl)
parts_fit (suc w) zero h = inl (omega arith, (1, suc w - 1, ground arith, omega arith, omega arith))
parts_fit w (suc b) h =
    inl (omega arith, (suc b, w - suc b, ground arith, omega arith, omega arith))

-- On a terminal with a column left for the bar its two parts fill what the texts leave, and the
-- first is not empty; on a narrower terminal the program panics.
pub bar_widths_lem :
    (width start_length percentage : ℕ)
    → percentage ≤ 100
    → ((start_length + 8 < width)
        × ((body : ℕ) × (padding : ℕ) × (bar_widths width start_length percentage
              ≡ ok (body, padding))
            × (start_length + 8 + body + padding ≡ width)
            × (0 < body)))
      ⊎ ((width ≤ start_length + 8) × (bar_widths width start_length percentage ≡ err panic))
unfolding bar_widths
bar_widths_lem width start_length percentage h = elim (Bool-cases (leb (start_length + 8) width)) [
  | inr narrow ↦ inr (
    ground arith,
    rw narrow (
        negative_panics (start_length + 8 - width - 1)
          (suc (start_length + 8 - width - 1) * percentage / 100)),
  )
  | inl wide ↦
      let w = width - (start_length + 8) in
      let room : start_length + 8 ≤ width = ground arith in
      elim (parts_fit w (w * percentage / 100) (share-le w percentage h)) [
        | inl (some_left, (body, padding, fits, sum, pos_body)) ↦
            inl (
              omega (arith, some_left),
              (body, padding, rw wide fits, omega (arith, sum), pos_body),
            )
        | inr (nothing, bad) ↦ inr (omega (arith, nothing), rw wide bad)
      ]
]
