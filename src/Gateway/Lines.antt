-- ===== src/Gateway/Lines.antt =====
-- What the receive loop of a gateway tells the application.
use minimal_autosar_adaptive.Prelude.Int.{ℤ, pos}
use minimal_autosar_adaptive.Prelude.{
  refl, Bool-cases, inl, inr, ℕ, ◌+◌, ◌≡◌, Bool, true, nat_eq, beq_refl, List, [], ◌∷◌, ◌++◌,
  Option, none, some, arith, if◌then◌else◌,
}
use minimal_autosar_adaptive.Gateway.{
  LightPattern, light_code, CanFrame, CanGateway, send_indicator, Line, set_line_a, set_line_b,
  as_shift, bit_of, is_id, line_value, on_line, receive, rx_loop,
}

-- What a line's callback should be given: the bit of each frame with the line's identifier.
pub values : ℕ → Option ℕ → List CanFrame → List Bool
values k id [] = []
values k id (f ∷ fs) = let more = values k id fs in if is_id f id then bit_of k f ∷ more else more

pub line_a_values : List Line → List Bool
line_a_values [] = []
line_a_values (set_line_a v ∷ out) = v ∷ line_a_values out
line_a_values (set_line_b v ∷ out) = line_a_values out

pub line_b_values : List Line → List Bool
line_b_values [] = []
line_b_values (set_line_a v ∷ out) = line_b_values out
line_b_values (set_line_b v ∷ out) = v ∷ line_b_values out

-- The lines of one frame, where the shift is defined.
lines_of : (Bool → Line) → Bool → Option ℕ → ℕ → CanFrame → List Line
lines_of line has_callback id k f =
    if is_id f id then if has_callback then line (bit_of k f) ∷ [] else [] else []

on_line-lines_of :
    (line : Bool → Line) (has_callback : Bool) (id : Option ℕ) (bit : ℤ) (k : ℕ) (f : CanFrame)
    → as_shift bit ≡ some k
    → on_line line has_callback id bit f ≡ some (lines_of line has_callback id k f)
unfolding on_line line_value lines_of
on_line-lines_of line has_callback id bit k f h = elim (Bool-cases (is_id f id)) [
  | inl e ↦ rw (e, h) refl
  | inr e ↦ rw e refl
]

frame_lines : ℕ → ℕ → CanFrame → CanGateway → List Line
frame_lines a b f g =
    lines_of set_line_a g.bus2fn.has_line_a g.cfg.rx.line_a_id a f
    ++ lines_of set_line_b g.bus2fn.has_line_b g.cfg.rx.line_b_id b f

receive-frame_lines :
    (f : CanFrame) (g : CanGateway) (a b : ℕ)
    → as_shift g.cfg.rx.line_a_bit ≡ some a
    → as_shift g.cfg.rx.line_b_bit ≡ some b
    → receive f g ≡ some (frame_lines a b f g)
unfolding receive frame_lines
receive-frame_lines f g a b ha hb =
    rw
      (
        on_line-lines_of set_line_a g.bus2fn.has_line_a g.cfg.rx.line_a_id g.cfg.rx.line_a_bit a f
            ha,
        on_line-lines_of set_line_b g.bus2fn.has_line_b g.cfg.rx.line_b_id g.cfg.rx.line_b_bit b f
            hb,
      )
      refl

frame_lines-a :
    (a b : ℕ) (f : CanFrame) (fs : List CanFrame) (g : CanGateway) (out : List Line)
    → line_a_values out ≡ (if g.bus2fn.has_line_a then values a g.cfg.rx.line_a_id fs else [])
    → line_a_values (frame_lines a b f g ++ out)
      ≡ (if g.bus2fn.has_line_a then values a g.cfg.rx.line_a_id (f ∷ fs) else [])
unfolding frame_lines lines_of line_a_values values
frame_lines-a a b f fs g out h = ground (arith, h)

frame_lines-b :
    (a b : ℕ) (f : CanFrame) (fs : List CanFrame) (g : CanGateway) (out : List Line)
    → line_b_values out ≡ (if g.bus2fn.has_line_b then values b g.cfg.rx.line_b_id fs else [])
    → line_b_values (frame_lines a b f g ++ out)
      ≡ (if g.bus2fn.has_line_b then values b g.cfg.rx.line_b_id (f ∷ fs) else [])
unfolding frame_lines lines_of line_b_values values
frame_lines-b a b f fs g out h = ground (arith, h)

rx_loop-cons :
    (f : CanFrame) (fs : List CanFrame) (g : CanGateway) (xs ys : List Line)
    → g.is_open ≡ true
    → receive f g ≡ some xs
    → rx_loop fs g ≡ some ys
    → rx_loop (f ∷ fs) g ≡ some (xs ++ ys)
unfolding rx_loop
rx_loop-cons f fs g xs ys live h k = ground (arith, live, h, k)

pub rx_loop-values :
    (fs : List CanFrame) (g : CanGateway) (a b : ℕ)
    → g.is_open ≡ true
    → as_shift g.cfg.rx.line_a_bit ≡ some a
    → as_shift g.cfg.rx.line_b_bit ≡ some b
    → (out : List Line) × (rx_loop fs g ≡ some out)
      × (line_a_values out ≡ (if g.bus2fn.has_line_a then values a g.cfg.rx.line_a_id fs else []))
      × (line_b_values out ≡ (if g.bus2fn.has_line_b then values b g.cfg.rx.line_b_id fs else []))
unfolding rx_loop values line_a_values line_b_values
rx_loop-values [] g a b live ha hb = ([], refl, ground arith, ground arith)
rx_loop-values (f ∷ fs) g a b live ha hb =
    let (out, e, h, j) = rx_loop-values fs g a b live ha hb in
    (
      frame_lines a b f g ++ out,
      rx_loop-cons f fs g (frame_lines a b f g) out live (receive-frame_lines f g a b ha hb) e,
      frame_lines-a a b f fs g out h,
      frame_lines-b a b f fs g out j,
    )

-- The number that two lines spell.
pub lines_code : List Line → Option ℕ
lines_code (set_line_a a ∷ set_line_b b ∷ []) = some ((if a then 1 else 0) + (if b then 2 else 0))
lines_code _ = none

spelled :
    (p : LightPattern) (g h : CanGateway) (f : CanFrame)
    → send_indicator p g ≡ some f
    → h.cfg.rx.line_a_id ≡ some g.cfg.tx.ind_canid
    → h.cfg.rx.line_b_id ≡ some g.cfg.tx.ind_canid
    → h.bus2fn.has_line_a ≡ true
    → h.bus2fn.has_line_b ≡ true
    → lines_code (frame_lines 0 1 f h ++ []) ≡ some (light_code p)
unfolding frame_lines lines_of is_id send_indicator lines_code light_code
spelled p g h f sent a b c d =
    let id : f.can_id ≡ g.cfg.tx.ind_canid = ground arith in
    let code : f.data0 ≡ light_code p = ground arith in ground (arith, beq_refl f.can_id)

-- A light pattern that one gateway sends comes back whole from another, open one whose lines A and B
-- are bits 0 and 1 of the indicator's frame and which has both callbacks: A and B are the two
-- binary digits of the pattern's code.
pub rx_loop-send_indicator :
    (p : LightPattern) (g h : CanGateway) (f : CanFrame)
    → send_indicator p g ≡ some f
    → h.is_open ≡ true
    → h.cfg.rx.line_a_id ≡ some g.cfg.tx.ind_canid
    → h.cfg.rx.line_b_id ≡ some g.cfg.tx.ind_canid
    → h.cfg.rx.line_a_bit ≡ pos 0
    → h.cfg.rx.line_b_bit ≡ pos 1
    → h.bus2fn.has_line_a ≡ true
    → h.bus2fn.has_line_b ≡ true
    → (out : List Line) × (rx_loop (f ∷ []) h ≡ some out) × (lines_code out ≡ some (light_code p))
unfolding as_shift
rx_loop-send_indicator p g h f sent live a b i j c d =
    let received = receive-frame_lines f h 0 1 (rw i refl) (rw j refl) in
    (
      frame_lines 0 1 f h ++ [],
      rx_loop-cons f [] h (frame_lines 0 1 f h) [] live received (unfold rx_loop in refl),
      spelled p g h f sent a b c d,
    )
