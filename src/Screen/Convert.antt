-- ===== src/Screen/Convert.antt =====
-- `convert_buf` shows the client's picture, pixel for pixel.
use g15daemon.Prelude.{
  ℕ, zero, suc, ◌+◌, ◌*◌, ◌<◌, ◌≤◌, Bool, ◌&&◌, ◌==◌, ◌!=◌, ltb, leb, if◌then◌else◌, arith, Returns,
  returns, Returns-bind, Returns-mono,
}
use g15daemon.Gfx.{Buf}
use g15daemon.Gfx.Pixel.{Shows, Shows-congr, Shows-congr_in, setpixel-Shows, setpixel-total}
use g15daemon.Screen.{convert_column, convert_columns, convert_buf}

-- Is the client's byte for (x, y) other than 0?
abbrev pub lit : (orig : ℕ → ℕ) → ℕ → ℕ → Bool
lit orig x y = orig (x + y * 160) != 0

module _ {a : Buf} (orig : ℕ → ℕ) where
  convert_column-Shows :
      (k y x : ℕ) (f : ℕ → ℕ → Bool) (b : Buf)
      → y + k ≤ 43
      → x < 160
      → Shows a f b
      → Returns
          (Shows a
            (λ x' y'. if (x' == x) && leb y y' && ltb y' (y + k) then lit orig x' y' else f x' y'))
          (convert_column orig k y x b)
  unfolding convert_column
  convert_column-Shows zero y x f b hy hx sh = returns (Shows-congr (λ x' y'. ground arith) sh)
  convert_column-Shows (suc k) y x f b hy hx sh =
      Returns-bind (setpixel-Shows sh x y (orig (x + y * 160)) hx (omega arith)) λ c sc.
        Returns-mono (convert_column-Shows k (y + 1) x _ c (omega arith) hx sc)
          λ c'. Shows-congr (λ x' y'. ground arith)

  convert_columns-Shows :
      (k x : ℕ) (f : ℕ → ℕ → Bool) (b : Buf)
      → x + k ≤ 160
      → Shows a f b
      → Returns
          (Shows a (λ x' y'. if leb x x' && ltb x' (x + k) then lit orig x' y' else f x' y'))
          (convert_columns orig k x b)
  unfolding convert_columns
  convert_columns-Shows zero x f b hx sh = returns (Shows-congr (λ x' y'. ground arith) sh)
  convert_columns-Shows (suc k) x f b hx sh =
      Returns-bind (convert_column-Shows 43 0 x f b (omega arith) (omega arith) sh) λ c sc.
        Returns-mono (convert_columns-Shows k (x + 1) _ c (omega arith) sc)
          λ c'. Shows-congr_in (λ x' y' hx' hy'. ground arith)

  -- After `convert_buf` the pixel at (x, y) is set exactly if the client's byte for it is not 0, and
  -- no byte behind the picture has changed.
  pub convert_buf-Shows :
      (f : ℕ → ℕ → Bool) (b : Buf) → Shows a f b → Returns (Shows a (lit orig)) (convert_buf orig b)
  unfolding convert_buf
  convert_buf-Shows f b sh =
      Returns-mono (convert_columns-Shows 160 0 f b (omega arith) sh)
        λ c. Shows-congr_in (λ x y hx hy. ground arith)

-- Whatever the client sends and the buffer holds, `convert_buf` returns.
module _ (orig : ℕ → ℕ) where
  convert_column-total :
      (k y x : ℕ) (b : Buf)
      → y + k ≤ 43
      → x < 160
      → Returns (λ _. Unit {0}) (convert_column orig k y x b)
  unfolding convert_column
  convert_column-total zero y x b hy hx = returns tt
  convert_column-total (suc k) y x b hy hx =
      Returns-bind (setpixel-total b x y (orig (x + y * 160)) hx (omega arith))
        λ c _. convert_column-total k (y + 1) x c (omega arith) hx

  convert_columns-total :
      (k x : ℕ) (b : Buf) → x + k ≤ 160 → Returns (λ _. Unit {0}) (convert_columns orig k x b)
  unfolding convert_columns
  convert_columns-total zero x b hx = returns tt
  convert_columns-total (suc k) x b hx =
      Returns-bind (convert_column-total 43 0 x b (omega arith) (omega arith))
        λ c _. convert_columns-total k (x + 1) c (omega arith)

  pub convert_buf-total : (b : Buf) → Returns (λ _. Unit {0}) (convert_buf orig b)
  unfolding convert_buf
  convert_buf-total b = convert_columns-total 160 0 b (omega arith)
