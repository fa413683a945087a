-- ===== src/Stream/Drawing.antt =====
-- pkg/progressbar/progressbar.go: a round of the bar that draws without an error.
use cocos.Common.{
  ℕ, ◌+◌, ◌*◌, ◌/◌, ◌<◌, ◌≤◌, ◌≡◌, refl, inl, inr, Option, none, some, arith, ltb, if◌then◌else◌,
  string_comparable,
}
use cocos.Common.Exec.{ok}
use cocos.Stream.Progress.{
  ProgressBar, update_progress, RenderIo, render_progress_bar, render_at, bar_widths_lem,
}

-- A terminal that takes every write, and has a column for the bar or no size.
abbrev pub Drawable : RenderIo → Option ℕ → Type 0
Drawable io none = Unit {0}
Drawable io (some width) = (io.clear ≡ none) × (io.write ≡ none) × (io.start_length + 8 < width)

-- What drawing the bar keeps.
abbrev pub SameCount : ProgressBar → ProgressBar → Type 0
SameCount p q =
    (q.number_of_bytes ≡ p.number_of_bytes)
    × (q.current_uploaded_bytes ≡ p.current_uploaded_bytes)
    × (q.current_upload_percentage ≡ p.current_upload_percentage)

pub render_lem :
    (io : RenderIo) (p : ProgressBar)
    → Drawable io io.width
    → p.current_upload_percentage ≤ 100
    → (q : ProgressBar) × (render_progress_bar io p ≡ ok q) × SameCount p q
unfolding render_progress_bar
render_lem io p d h = at io.width d
  where
    at :
        (w : Option ℕ)
        → Drawable io w
        → (q : ProgressBar) × (render_at io p w ≡ ok q) × SameCount p q
    at none d = (p, refl, (refl, refl, refl))
    at (some width) (c, w, room) =
        elim (bar_widths_lem width io.start_length p.current_upload_percentage h) [
          | inr (narrow, bad) ↦ absurd (omega (arith, narrow, room))
          | inl (wide, (body, padding, fits, sum, some_body)) ↦ (
            record p { max_width = if ltb p.max_width width then width else p.max_width },
            rw (c, fits, w) refl,
            (refl, refl, refl),
          )
        ]

percentage-le : (a n : ℕ) → a ≤ n → 0 < n → a * 100 / n ≤ 100
percentage-le a n h k = grind arith

pub update_lem :
    (n : ℕ) (p : ProgressBar)
    → p.current_uploaded_bytes + n ≤ p.number_of_bytes
    → 0 < n
    → (q : ProgressBar) × (update_progress n p ≡ ok q)
      × (q.number_of_bytes ≡ p.number_of_bytes)
      × (q.current_uploaded_bytes ≡ p.current_uploaded_bytes + n)
      × (q.current_upload_percentage ≤ 100)
      × (q.current_upload_percentage ≡ q.current_uploaded_bytes * 100 / p.number_of_bytes)
unfolding update_progress
update_lem n p h k = (
  record p {
    current_uploaded_bytes = p.current_uploaded_bytes + n;
    current_upload_percentage = (p.current_uploaded_bytes + n) * 100 / p.number_of_bytes;
  },
  ground arith,
  refl,
  refl,
  percentage-le (p.current_uploaded_bytes + n) p.number_of_bytes h (omega arith),
  refl,
)
