-- ===== src/Diag/Frames.antt =====
-- What a client of the diagnostic server receives.
use minimal_autosar_adaptive.Prelude.{
  ℕ, ◌+◌, ◌*◌, ◌/◌, ◌%◌, ◌<◌, ◌≡◌, refl, ap, ◌⊎◌, inl, inr, ◌≢◌, nat_eq, ◌==◌, Bytes, [], ◌∷◌,
  arith, Option, ◌∙◌, beq_refl, [], ◌∷◌, none, some, length, if◌then◌else◌, Bool-cases,
}
use native.Mathlib.Nat.{mod-eq_of_lt}
use minimal_autosar_adaptive.Diag.Server.{
  Nrc, Server, nrc_ok, nrc_code, handle_rdbi, handle_routine, read_data, routine_control, dispatch,
  take, write_response, answer, serve, uds_pos, uds_neg, is_nrc_ok,
}

-- A positive response to `sid`, or a negative one with a code.
abbrev pub Answers : ℕ → Bytes → Type 0
Answers sid rsp =
    ((payload : Bytes) × (rsp ≡ (sid + 0x40) ∷ payload))
    ⊎ ((nrc : ℕ) × (nrc ≢ 0) × (rsp ≡ 0x7F ∷ sid ∷ nrc ∷ []))

read_data-Answers : (args : Bytes) (s : Server) → Answers 0x22 (read_data args s)
unfolding read_data
read_data-Answers [] s = inr (0x13, ground arith, refl)
read_data-Answers (b ∷ []) s = inr (0x13, ground arith, refl)
read_data-Answers (hi ∷ lo ∷ more) s = by_code (handle_rdbi ((hi * 256 + lo) % 65536) s)
  where
    by_code :
        (r : Nrc × Bytes)
        → Answers 0x22 (if is_nrc_ok r.0 then uds_pos 0x22 r.1 else uds_neg 0x22 (nrc_code r.0))
    by_code (nrc_ok, payload) = inl (payload, refl)
    by_code (n, payload) = inr (nrc_code n, ground arith, refl)

routine_control-Answers : (args : Bytes) (s : Server) → Answers 0x31 (routine_control args s)
unfolding routine_control
routine_control-Answers [] s = inr (0x13, ground arith, refl)
routine_control-Answers (b ∷ []) s = inr (0x13, ground arith, refl)
routine_control-Answers (b ∷ c ∷ []) s = inr (0x13, ground arith, refl)
routine_control-Answers (sub ∷ hi ∷ lo ∷ payload) s =
    by_code (handle_routine sub ((hi * 256 + lo) % 65536) payload s)
  where
    by_code :
        (n : Nrc)
        → Answers 0x31 (if is_nrc_ok n then uds_pos 0x31 [] else uds_neg 0x31 (nrc_code n))
    by_code nrc_ok = inl ([], refl)
    by_code n = inr (nrc_code n, ground arith, refl)

-- Every request is answered for its own service: positively, with the service's id raised by 0x40,
-- or negatively, with the id and a code that is not zero.
pub dispatch-Answers : (sid : ℕ) (args : Bytes) (s : Server) → Answers sid (dispatch sid args s)
unfolding dispatch
dispatch-Answers sid args s = elim (Bool-cases (sid == 0x22)) [
  | inl e ↦ rw ((nat_eq.beq_iff sid 0x22).0 e) (read_data-Answers args s)
  | inr e ↦ elim (Bool-cases (sid == 0x31)) [
    | inl f ↦ rw ((nat_eq.beq_iff sid 0x31).0 f) (routine_control-Answers args s)
    | inr f ↦ elim (Bool-cases (sid == 0x19)) [
      | inl g ↦ rw ((nat_eq.beq_iff sid 0x19).0 g) (inl ([], unfold uds_pos in refl))
      | inr g ↦ rw (e, f, g) (inr (0x31, omega arith, unfold uds_neg nrc_code in refl))
    ]
  ]
]

take_all : (xs : Bytes) → take (length xs) xs ≡ xs
take_all [] = refl
take_all (x ∷ xs) = ap (λ (l : Bytes). x ∷ l) (take_all xs)

-- A response of fewer than 65536 bytes is framed by its length, high byte first, and goes out
-- whole.
pub write_response-short :
    (rsp : Bytes)
    → length rsp < 65536
    → (write_response rsp ≡ length rsp / 256 ∷ length rsp % 256 ∷ rsp)
      × (length rsp / 256 * 256 + length rsp % 256 ≡ length rsp)
unfolding write_response
write_response-short rsp h = (rw (mod-eq_of_lt h, take_all rsp), omega arith)

-- A response of exactly 65536 bytes goes out as an empty frame.
pub write_response-long : (rsp : Bytes) → length rsp ≡ 65536 → write_response rsp ≡ 0 ∷ 0 ∷ []
unfolding write_response
write_response-long rsp h = rw h

-- What a client reads from an answer: the length and as many bytes.
abbrev pub unframe : Bytes → Option Bytes
unframe (hi ∷ lo ∷ body) = if length body == hi * 256 + lo then some body else none
unframe _ = none

unframe-write_response :
    (rsp : Bytes) → length rsp < 65536 → unframe (write_response rsp) ≡ some rsp
unframe-write_response rsp h =
    let framed = write_response-short rsp h in
    rw framed.0 (rw (framed.1, beq_refl (length rsp)) refl)

-- A client that sends a request with its length, two bytes with the high one first, and the whole
-- request, reads the response to the request's first byte from the answer, where request and
-- response are shorter than 65536 bytes.
pub serve-unframe :
    (sid : ℕ) (args : Bytes) (s : Server)
    → length (sid ∷ args) < 65536
    → length (dispatch sid args s) < 65536
    → (out : Bytes) × (serve
          (length (sid ∷ args) / 256 ∷ length (sid ∷ args) % 256 ∷ [])
          (λ n. take n (sid ∷ args))
          s
        ≡ some out)
      × (unframe out ≡ some (dispatch sid args s))
unfolding serve
serve-unframe sid args s h small =
    let req = sid ∷ args in
    let len : (length req / 256 * 256 + length req % 256) % 65536 ≡ length req =
      ap (λ (n : ℕ). n % 65536) (omega arith) ∙ mod-eq_of_lt h in
    (
      write_response (dispatch sid args s),
      rw (len, take_all args, beq_refl (length req)) refl,
      unframe-write_response (dispatch sid args s) small,
    )

-- A connection that delivers another number of bytes than it announced is closed without an answer,
-- and so is one that announces none.
pub serve_refuses :
    (hi lo : ℕ) (body : ℕ → Bytes) (s : Server)
    → hi < 256
    → lo < 256
    → (hi * 256 + lo ≡ 0) ⊎ (length (body (hi * 256 + lo)) ≢ hi * 256 + lo)
    → serve (hi ∷ lo ∷ []) body s ≡ none
unfolding serve
serve_refuses hi lo body s h l bad =
    let small : (hi * 256 + lo) % 65536 ≡ hi * 256 + lo = mod-eq_of_lt (omega arith) in
    rw small (closed (body (hi * 256 + lo)) (hi * 256 + lo) bad)
  where
    closed :
        (req : Bytes) (n : ℕ)
        → (n ≡ 0) ⊎ (length req ≢ n)
        → (if length req == n then answer req s else none) ≡ none
    closed [] n bad = unfold answer in ground arith
    closed (b ∷ req) n bad = ground arith
