-- ===== src/Service/Export/Watermark.antt =====
-- nvr_core/service/export.go: where the watermark goes. An `int` is an int64; the places that a text
-- is given are expressions of ffmpeg, which are texts or the number that is printed.
use rm_vms.Base.{
  ℕ, zero, suc, ◌+◌, ◌*◌, ◌/◌, ◌-◌, ◌≤◌, ◌<◌, ◌^◌, ◌≡◌, ◌∙◌, refl, sym, ap, subst, Bool, true,
  false, ◌||◌, if◌then◌else◌, String, arith,
}
use rm_vms.Base.Int.{
  ℤ, pos, negsuc, add64, sub64, ltb_ℤ, ◌≤ℤ◌, ◌-ℤ◌, ◌+ℤ◌, sub64_exact, add64_exact, int64,
}
use rm_vms.Service.Export.Codec.{eq_str}

pub record WatermarkParams : Type 0 where
  pub text : String
  pub image_path : String
  pub position : String
  pub scale : ℕ
  pub opacity : ℕ
  pub color : String

unfoldable pub wm_padding : ℤ
wm_padding = pos 10

unfoldable pub wm_gap : ℤ
wm_gap = pos 5

unfoldable pub wm_font_size : ℤ
wm_font_size = pos 24

-- `a / 2`, which cuts towards 0.
unfoldable pub half : ℤ → ℤ
half (pos n) = pos (n / 2)
half (negsuc n) = let q = suc n / 2 in if ltb_ℤ (pos q) (pos 1) then pos 0 else negsuc (q - 1)

-- `if pngW < 1 { pngW = 1 }`
unfoldable pub at_least_1 : ℕ → ℕ
at_least_1 zero = 1
at_least_1 (suc n) = suc n

-- The size of the image for a video of that width, for an image with a width.
unfoldable pub png_size : ℕ → ℕ → ℕ → ℕ → ℕ × ℕ
png_size video_w scale img_w img_h =
    let png_w = video_w * scale / 100 in (at_least_1 png_w, at_least_1 (img_h * png_w / img_w))

unfoldable pub text_space : Bool → ℤ
text_space with_text = if with_text then add64 wm_font_size wm_gap else pos 0

unfoldable pub place : String → ℤ → ℤ → ℤ → ℤ → ℤ × ℤ
place position video_w video_h png_w total_h =
    if eq_str position "top-right"
    then (sub64 (sub64 video_w png_w) wm_padding, wm_padding)
    else if eq_str position "center"
    then (half (sub64 video_w png_w), half (sub64 video_h total_h))
    else if eq_str position "bottom-left"
    then (wm_padding, sub64 (sub64 video_h total_h) wm_padding)
    else if eq_str position "bottom-right"
    then (sub64 (sub64 video_w png_w) wm_padding, sub64 (sub64 video_h total_h) wm_padding)
    else (wm_padding, wm_padding)

unfoldable pub overlay_position : String → ℤ → ℤ → ℤ → ℤ → Bool → ℤ × ℤ
overlay_position position video_w video_h png_w png_h with_text =
    place position video_w video_h png_w (add64 png_h (text_space with_text))

pub data Place : Type 0 where
  number : ℤ → Place
  expression : String → Place

unfoldable pub text_position_below : String → ℤ → ℤ → Place × Place
text_position_below position overlay_y png_h =
    let ty = number (add64 (add64 overlay_y png_h) wm_gap) in
    if eq_str position "top-right" || eq_str position "bottom-right"
    then (expression "w-tw-10", ty)
    else if eq_str position "center"
    then (expression "(w-tw)/2", ty)
    else (number wm_padding, ty)

unfoldable pub text_position : String → Place × Place
text_position position =
    if eq_str position "top-right"
    then (expression "w-tw-10", number wm_padding)
    else if eq_str position "center"
    then (expression "(w-tw)/2", expression "(h-th)/2")
    else if eq_str position "bottom-left"
    then (number wm_padding, expression "h-th-10")
    else if eq_str position "bottom-right"
    then (expression "w-tw-10", expression "h-th-10")
    else (number wm_padding, number wm_padding)

-- A box of that size lies in a frame of that size, with the padding on each side.
unfoldable pub Inside : ℕ → ℕ → ℕ → ℕ → ℤ × ℤ → Type 0
Inside video_w video_h w h at =
    (pos 10 ≤ℤ at.0)
    × (at.0 +ℤ pos (w + 10) ≤ℤ pos video_w)
    × (pos 10 ≤ℤ at.1)
    × (at.1 +ℤ pos (h + 10) ≤ℤ pos video_h)

Inside-if :
    (video_w video_h w h : ℕ) (b : Bool) (x y : ℤ × ℤ)
    → Inside video_w video_h w h x
    → Inside video_w video_h w h y
    → Inside video_w video_h w h (if b then x else y)
Inside-if video_w video_h w h true x y p q = p
Inside-if video_w video_h w h false x y p q = q

sub64_pos : (a b : ℕ) → b ≤ a → a < 2 ^ 62 → sub64 (pos a) (pos b) ≡ pos (a - b)
unfolding ◌-ℤ◌
sub64_pos a b le small = sub64_exact (pos a) (pos b) (omega arith) (omega arith) ∙ ground arith

pub Inside-at :
    (video_w video_h w h x y : ℕ)
    → 10 ≤ x
    → x + (w + 10) ≤ video_w
    → 10 ≤ y
    → y + (h + 10) ≤ video_h
    → Inside video_w video_h w h (pos x, pos y)
unfolding Inside ◌+ℤ◌
Inside-at video_w video_h w h x y left right top bottom =
    (omega arith, ground arith, omega arith, ground arith)

place-Inside :
    (position : String) (video_w video_h w h : ℕ)
    → video_w < 2 ^ 62
    → video_h < 2 ^ 62
    → w + 20 ≤ video_w
    → h + 20 ≤ video_h
    → Inside video_w video_h w h (place position (pos video_w) (pos video_h) (pos w) (pos h))
unfolding place wm_padding half
place-Inside position video_w video_h w h sw sh fw fh =
    rw
      (
        sub64_pos video_w w (omega arith) sw,
        sub64_pos video_h h (omega arith) sh,
        sub64_pos (video_w - w) 10 (omega arith) (omega arith),
        sub64_pos (video_h - h) 10 (omega arith) (omega arith),
      )
      (Inside-if video_w video_h w h (eq_str position "top-right") _ _
        (Inside-at video_w video_h w h _ _ (omega arith) (omega arith) (omega arith) (omega arith))
        (Inside-if video_w video_h w h (eq_str position "center") _ _
          (Inside-at video_w video_h w h _ _ (omega arith) (omega arith) (omega arith)
            (omega arith))
          (Inside-if video_w video_h w h (eq_str position "bottom-left") _ _
            (Inside-at video_w video_h w h _ _ (omega arith) (omega arith) (omega arith)
              (omega arith))
            (Inside-if video_w video_h w h (eq_str position "bottom-right") _ _
              (Inside-at video_w video_h w h _ _ (omega arith) (omega arith) (omega arith)
                (omega arith))
              (Inside-at video_w video_h w h _ _ (omega arith) (omega arith) (omega arith)
                (omega arith))))))

-- The height of the line of text below the image, with the gap.
unfoldable pub text_rows : Bool → ℕ
text_rows with_text = if with_text then 29 else 0

text_space_rows : (with_text : Bool) → text_space with_text ≡ pos (text_rows with_text)
unfolding text_space text_rows wm_font_size wm_gap ◌+ℤ◌ add64 int64
text_space_rows true = refl
text_space_rows false = refl

text_rows-le : (with_text : Bool) → text_rows with_text ≤ 29
unfolding text_rows
text_rows-le true = omega arith
text_rows-le false = omega arith

overlay_total :
    (h : ℕ) (with_text : Bool)
    → h + text_rows with_text < 2 ^ 62
    → add64 (pos h) (text_space with_text) ≡ pos (h + text_rows with_text)
unfolding ◌+ℤ◌
overlay_total h with_text small =
    let few = text_rows-le with_text in
    ap (add64 (pos h)) (text_space_rows with_text)
    ∙ add64_exact (pos h) (pos (text_rows with_text)) (omega arith) (omega arith)
    ∙ ground arith

-- At every position, one that is not known included, the box of the image's width that has the image
-- and the line below it lies in the frame with the padding on each side.
pub overlay_position-Inside :
    (position : String) (video_w video_h w h : ℕ) (with_text : Bool)
    → video_w < 2 ^ 62
    → video_h < 2 ^ 62
    → w + 20 ≤ video_w
    → h + text_rows with_text + 20 ≤ video_h
    → Inside video_w video_h w
        (h + text_rows with_text)
        (overlay_position position (pos video_w) (pos video_h) (pos w) (pos h) with_text)
unfolding overlay_position
overlay_position-Inside position video_w video_h w h with_text sw sh fw fh =
    subst
      (λ t.
        Inside video_w video_h w (h + text_rows with_text)
          (place position (pos video_w) (pos video_h) (pos w) t))
      (sym (overlay_total h with_text (omega arith)))
      (place-Inside position video_w video_h w (h + text_rows with_text) sw sh fw fh)
