-- ===== src/Service/Export/Placed.antt =====
-- nvr_core/service/export.go: the image of a watermark and the text below it, together. What ffmpeg
-- makes of the expression of a place is a parameter.
use rm_vms.Base.{
  ℕ, ◌+◌, ◌-◌, ◌/◌, ◌≤◌, ◌<◌, ◌^◌, ◌≡◌, ◌∙◌, ap, sym, subst, Bool, true, false, ◌||◌, if◌then◌else◌,
  String, arith,
}
use rm_vms.Base.Int.{ℤ, pos, negsuc, add64, ◌+ℤ◌, add64_exact}
use rm_vms.Service.Export.Codec.{eq_str}
use rm_vms.Service.Export.Watermark.{
  wm_padding, wm_gap, text_rows, Place, number, expression, overlay_position, text_position_below,
  Inside, Inside-at, overlay_position-Inside,
}

-- A place, where `eval` is the value of an expression.
abbrev pub placed_at : (String → ℤ) → Place × Place → ℤ × ℤ
placed_at eval (x, y) = (value x, value y)
  where
    value : Place → ℤ
    value (number n) = n
    value (expression e) = eval e

-- The values of the two expressions for a frame and a text of these widths, the text with its
-- padding no wider than the frame.
pub record Evaluates (eval : String → ℤ) (video_w text_w : ℕ) : Type 0 where
  pub right : eval "w-tw-10" ≡ pos (video_w - text_w - 10)
  pub middle : eval "(w-tw)/2" ≡ pos ((video_w - text_w) / 2)

placed_at-Inside_if :
    (eval : String → ℤ) (video_w video_h w h : ℕ) (b : Bool) (p q : Place × Place)
    → Inside video_w video_h w h (placed_at eval p)
    → Inside video_w video_h w h (placed_at eval q)
    → Inside video_w video_h w h (placed_at eval (if b then p else q))
placed_at-Inside_if eval video_w video_h w h true p q i j = i
placed_at-Inside_if eval video_w video_h w h false p q i j = j

add64_pos : (a b : ℕ) → a + b < 2 ^ 62 → add64 (pos a) (pos b) ≡ pos (a + b)
unfolding ◌+ℤ◌
add64_pos a b small = add64_exact (pos a) (pos b) (omega arith) (omega arith) ∙ ground arith

text_below-Inside :
    (eval : String → ℤ) (position : String) (video_w video_h h text_w text_h y : ℕ)
    → Evaluates eval video_w text_w
    → video_h < 2 ^ 62
    → text_w + 20 ≤ video_w
    → text_h ≤ 24
    → 10 ≤ y
    → y + h + 39 ≤ video_h
    → Inside video_w video_h text_w text_h
        (placed_at eval (text_position_below position (pos y) (pos h)))
unfolding text_position_below wm_padding wm_gap
text_below-Inside eval position video_w video_h h text_w text_h y ev small fits low top bottom =
    subst
      (λ t. Inside video_w video_h text_w text_h (
        placed_at eval (
          if eq_str position "top-right" || eq_str position "bottom-right"
          then (expression "w-tw-10", number t)
          else if eq_str position "center"
          then (expression "(w-tw)/2", number t)
          else (number (pos 10), number t))))
      (sym line)
      (placed_at-Inside_if eval video_w video_h text_w text_h
        (eq_str position "top-right" || eq_str position "bottom-right") _ _
        (rw ev.right (
          Inside-at video_w video_h text_w text_h _ _ (omega arith) (omega arith) (omega arith)
            (omega arith)))
        (placed_at-Inside_if eval video_w video_h text_w text_h (eq_str position "center") _ _
          (rw ev.middle (
            Inside-at video_w video_h text_w text_h _ _ (omega arith) (omega arith) (omega arith)
              (omega arith)))
          (Inside-at video_w video_h text_w text_h _ _ (omega arith) (omega arith) (omega arith)
            (omega arith))))
  where
    line : add64 (add64 (pos y) (pos h)) (pos 5) ≡ pos (y + h + 5)
    line =
        ap (λ a. add64 a (pos 5)) (add64_pos y h (omega arith)) ∙ add64_pos (y + h) 5 (omega arith)

-- Both parts of the watermark in the box that holds them.
abbrev BothInside : (String → ℤ) → String → ℕ → ℕ → ℕ → ℕ → ℕ → ℕ → ℤ × ℤ → Type 0
BothInside eval position video_w video_h w h text_w text_h at =
    Inside video_w video_h w h at
    × Inside video_w video_h text_w text_h
        (placed_at eval (text_position_below position at.1 (pos h)))

both_in_box :
    (eval : String → ℤ) (position : String) (video_w video_h w h text_w text_h : ℕ) (at : ℤ × ℤ)
    → Evaluates eval video_w text_w
    → video_h < 2 ^ 62
    → text_w + 20 ≤ video_w
    → text_h ≤ 24
    → Inside video_w video_h w (h + 29) at
    → BothInside eval position video_w video_h w h text_w text_h at
unfolding Inside ◌+ℤ◌
both_in_box eval position video_w video_h w h text_w text_h (x, negsuc n) ev small fits low box =
    absurd (omega (arith, box.2))
both_in_box eval position video_w video_h w h text_w text_h (x, pos y) ev small fits low box =
    let bottom : y + h + 39 ≤ video_h = ground (arith, box.3) in
    (
      (box.0, box.1, box.2, ground (arith, bottom)),
      text_below-Inside eval position video_w video_h h text_w text_h y ev small fits low
          (omega (arith, box.2)) bottom,
    )

-- At every position, one that is not known included, both the image and the line of text below it
-- lie in the frame with the padding of 10 on each side, where the image with its text, and the text
-- in its own width, have room for it, the text is at most as high as its font of 24, and ffmpeg gives
-- the two expressions of a text's place their values; the sizes are below 2 ^ 62.
pub image_and_text-Inside :
    (eval : String → ℤ) (position : String) (video_w video_h w h text_w text_h : ℕ)
    → Evaluates eval video_w text_w
    → video_w < 2 ^ 62
    → video_h < 2 ^ 62
    → w + 20 ≤ video_w
    → text_w + 20 ≤ video_w
    → h + 49 ≤ video_h
    → text_h ≤ 24
    → let at = overlay_position position (pos video_w) (pos video_h) (pos w) (pos h) true in
      Inside video_w video_h w h at
      × Inside video_w video_h text_w text_h
          (placed_at eval (text_position_below position at.1 (pos h)))
unfolding text_rows
image_and_text-Inside eval position video_w video_h w h text_w text_h ev sw sh fw ft fh low =
    both_in_box eval position video_w video_h w h text_w text_h
      (overlay_position position (pos video_w) (pos video_h) (pos w) (pos h) true) ev sh ft low
      (overlay_position-Inside position video_w video_h w h true sw sh fw (omega (arith, fh)))
