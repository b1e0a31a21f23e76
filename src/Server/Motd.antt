-- ===== src/Server/Motd.antt =====
-- srvmain.c, `motd_cb` and `motd_get`: the message of the day, one line of the command's output
-- at a time. `motd_sz` and the lengths are `size_t`, 64 bits wide.
use frelay.Common.{ℕ, ◌+◌, ◌-◌, ◌%◌, ◌^◌, ◌≤◌, ◌≡◌, refl, ◌∙◌, arith}
use frelay.Common.{
  List, [], ◌∷◌, ◌++◌, length, write, length-write, false, ltb, if◌then◌else◌, Bool-cases, inl, inr,
}
use frelay.Common.{Outcome, returns, faults, ◌>>=◌}

abbrev motd_size : ℕ
motd_size = 4000

pub record Motd : Type 0 where
  pub motd : List ℕ
  pub motd_sz : ℕ

-- `strcpy` to an offset faults where the text and its terminator do not fit the buffer.
unfoldable pub copy_text : Motd → List ℕ → Outcome Motd
copy_text m s =
    if ltb motd_size (m.motd_sz + length s + 1)
    then faults
    else returns (record m { motd = write m.motd_sz (s ++ 0 ∷ []) m.motd })

unfoldable pub motd_cb : Motd → List ℕ → Outcome Motd
motd_cb m s = do
  m1 ←
      if ltb (length s) ((motd_size + 2 ^ 64 - m.motd_sz) % 2 ^ 64)
      then copy_text m s
      else returns m
  returns (record m1 { motd_sz = (m1.motd_sz + length s) % 2 ^ 64 })

-- The loop of `pcmd` over the lines of the command's output; `motd_cb` never asks it to stop.
unfoldable pub motd_lines : Motd → List (List ℕ) → Outcome Motd
motd_lines m [] = returns m
motd_lines m (s ∷ more) = motd_cb m s >>= λ m1. motd_lines m1 more

unfoldable pub motd_get : Motd → List (List ℕ) → Outcome Motd
motd_get m lines = motd_lines (record m { motd_sz = 0 }) lines

abbrev total : List (List ℕ) → ℕ
total [] = 0
total (s ∷ more) = length s + total more

motd_cb-returns :
    (m : Motd) (s : List ℕ)
    → m.motd_sz + length s ≤ 4000
    → (q : Motd) × (motd_cb m s ≡ returns q)
      × (length q.motd ≡ length m.motd)
      × (q.motd_sz ≡ m.motd_sz + length s)
unfolding motd_cb copy_text
motd_cb-returns m s h =
    let room : (motd_size + 2 ^ 64 - m.motd_sz) % 2 ^ 64 ≡ motd_size - m.motd_sz = omega arith in
    elim (Bool-cases (ltb (length s) (motd_size - m.motd_sz))) [
      | inl fits ↦
          (let inside : ltb motd_size (m.motd_sz + length s + 1) ≡ false = ground arith in
            (
              record {
                motd = write m.motd_sz (s ++ 0 ∷ []) m.motd;
                motd_sz = (m.motd_sz + length s) % 2 ^ 64;
              },
              rw (room, fits, inside) refl,
              length-write m.motd_sz (s ++ 0 ∷ []) m.motd,
              omega arith,
            ))
      | inr full ↦ (
        record m { motd_sz = (m.motd_sz + length s) % 2 ^ 64 },
        rw (room, full) refl,
        refl,
        omega arith,
      )
    ]

motd_lines-returns :
    (m : Motd) (lines : List (List ℕ))
    → m.motd_sz + total lines ≤ 4000
    → (q : Motd) × (motd_lines m lines ≡ returns q) × (length q.motd ≡ length m.motd)
unfolding motd_lines
motd_lines-returns m [] h = (m, refl, refl)
motd_lines-returns m (s ∷ more) h =
    let (q, eq, nq, sq) = motd_cb-returns m s (omega arith) in
    let (z, ez, nz) = motd_lines-returns q more (omega (arith, sq)) in (z, rw eq ez, nz ∙ nq)

-- Output of at most 4000 characters never leaves the buffer, whatever the lines are.
pub motd_get-returns :
    (m : Motd) (lines : List (List ℕ))
    → total lines ≤ 4000
    → (q : Motd) × (motd_get m lines ≡ returns q) × (length q.motd ≡ length m.motd)
unfolding motd_get
motd_get-returns m lines h = motd_lines-returns (record m { motd_sz = 0 }) lines (omega arith)
