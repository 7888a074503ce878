-- ===== src/Params/Convert/Numbers.antt =====
-- The conversions of scalars.
use rpp_cpp.Base.{ℕ, ◌≡◌, refl, ap, ◌⊎◌, ◌↔◌, inl, inr, arith}
use mathlib.Core.Path.{subst}
use rpp_cpp.Base.Result.{ok, err, runtime_error}
use rpp_cpp.Base.Int.{ℤ, wrap, Fits, wrap-of-Fits, wrap-Fits}
use rpp_cpp.Params.Value.{ParameterValue, int}
use rpp_cpp.Params.Convert.{FloatCasts, int_from, int8, int16, int32, float32, float64, RoundTrips}

int_from-of-Fits : (half : ℕ) (i : ℤ) → Fits half i → int_from half (int i) ≡ ok i
unfolding int_from
int_from-of-Fits half i h = ap ok (wrap-of-Fits half i h)

-- An int8_t, int16_t or int32_t that is stored as a parameter is read back unchanged.
pub int_round_trip :
    (i : ℤ)
    → (Fits 128 i → RoundTrips int8 i)
      × (Fits 32768 i → RoundTrips int16 i)
      × (Fits 2147483648 i → RoundTrips int32 i)
unfolding int8 int16 int32
int_round_trip i = (int_from-of-Fits 128 i, int_from-of-Fits 32768 i, int_from-of-Fits 2147483648 i)

-- Reading an int8_t throws unless the value holds an integer; otherwise the result is in the range
-- of an int8_t, and it is the stored integer exactly when that is in range: any other integer is
-- replaced without an exception.
pub int8_exact :
    (v : ParameterValue)
    → (int8.from v ≡ err (runtime_error "Parameter value is not an int."))
      ⊎ ((i : ℤ) × (z : ℤ) × (v ≡ int i)
          × (int8.from v ≡ ok z)
          × Fits 128 z
          × ((z ≡ i) ↔ Fits 128 i))
unfolding int8 int_from
int8_exact (int i) = inr (
  i,
  wrap 128 i,
  refl,
  refl,
  wrap-Fits 128 i (omega arith),
  (λ e. subst (Fits 128) e (wrap-Fits 128 i (omega arith)), wrap-of-Fits 128 i),
)
int8_exact _ = inl refl

-- A float or a double that is stored is read back unchanged: a float if widening it to a double and
-- narrowing that again gives it back.
pub float_round_trip :
    (casts : FloatCasts) (x d : ℕ)
    → casts.narrow (casts.widen x) ≡ x
    → RoundTrips (float32 casts) x × RoundTrips (float64 casts) d
unfolding float32 float64
float_round_trip casts x d h = (ap ok h, refl)
