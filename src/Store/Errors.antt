-- ===== src/Store/Errors.antt =====
-- internal/store/errors.go: error values as the trees that Go's wrapping builds.
use trino_log_sink.Base.{Bool, Bytes, Option, false, none, pos, some, true, ℤ, ◌||◌}

-- `opaque` is an error that wraps nothing, `trino_error` the driver's `ErrTrino` with its name and
-- `exception` ClickHouse's `Exception` with its code; `wrapped` is `fmt.Errorf` of a prefix and one
-- `%w`, `joined` that of `%w: %w`.
pub data Error : Type 0 where
  non_retryable : Error
  partial_commit : ℤ → Error → Error
  wrapped : Bytes → Error → Error
  joined : Error → Error → Error
  opaque : Bytes → Error
  trino_error : Bytes → Bytes → Error
  exception : ℤ → Bytes → Error

-- `errors.Is(err, ErrNonRetryable)`.
unfoldable pub is_non_retryable : Error → Bool
is_non_retryable non_retryable = true
is_non_retryable (partial_commit n e) = is_non_retryable e
is_non_retryable (wrapped msg e) = is_non_retryable e
is_non_retryable (joined e f) = is_non_retryable e || is_non_retryable f
is_non_retryable (opaque msg) = false
is_non_retryable (trino_error name msg) = false
is_non_retryable (exception code msg) = false

first_of_two : Option ℤ → Option ℤ → Option ℤ
first_of_two none o = o
first_of_two (some n) o = some n

-- `errors.As(err, &pce)`: the first partial commit in depth-first order, by its count.
unfoldable pub as_partial_commit : Error → Option ℤ
unfolding first_of_two
as_partial_commit non_retryable = none
as_partial_commit (partial_commit n e) = some n
as_partial_commit (wrapped msg e) = as_partial_commit e
as_partial_commit (joined e f) = first_of_two (as_partial_commit e) (as_partial_commit f)
as_partial_commit (opaque msg) = none
as_partial_commit (trino_error name msg) = none
as_partial_commit (exception code msg) = none

unfoldable pub or_zero : Option ℤ → ℤ
or_zero none = pos 0
or_zero (some n) = n

unfoldable pub committed_rows : Error → ℤ
unfolding as_partial_commit or_zero
committed_rows e = or_zero (as_partial_commit e)
