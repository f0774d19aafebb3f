-- ===== src/Executor/MaxThreads.antt =====
-- `default_max_threads` of executor/src/lib.rs.
pub mod Bounds
pub mod Values
pub mod Ignored
use lockness.Prelude.{ℕ, zero, suc, Bool, true, false, ltb, if◌then◌else◌, Option, none, some, List}
use lockness.Executor.Decimal.{ℤ, pos, negsuc, and_then, parse}

-- A call returns, or it panics at an `unwrap`.
pub data Run (A : Type 0) : Type 0 where
  returns : A → Run A
  panics : Run A

infixl 5 ◌>>=◌
abbrev pub ◌>>=◌ : {A B : Type 0} → Run A → (A → Run B) → Run B
returns a >>= f = f a
panics >>= f = panics

abbrev pub unwrap : {A : Type 0} → Option A → Run A
unwrap none = panics
unwrap (some a) = returns a

abbrev pub unwrap_or : {A : Type 0} → A → Option A → A
unwrap_or a none = a
unwrap_or a (some b) = b

-- What `env::var_os` gives: a text of bytes in UTF-8, or a value that is no Unicode.
pub data OsString : Type 0 where
  unicode : List ℕ → OsString
  other : OsString

abbrev pub to_str : OsString → Option (List ℕ)
to_str (unicode s) = some s
to_str other = none

abbrev pub lt_one : ℤ → Bool
lt_one (pos n) = ltb n 1
lt_one (negsuc n) = true

-- `usize::try_from` of an `isize`, and `NonZeroUsize::new`.
abbrev pub try_from : ℤ → Option ℕ
try_from (pos n) = some n
try_from (negsuc n) = none

abbrev pub nonzero_new : ℕ → Option ℕ
nonzero_new zero = none
nonzero_new (suc n) = some (suc n)

-- The number that the closure of `get_or_init` reads out of the variable.
abbrev pub read_number : OsString → ℤ
read_number s = unwrap_or (negsuc 0) (and_then (to_str s) parse)

unfoldable pub num_threads_of : ℤ → Run (Option ℕ)
num_threads_of z =
    if lt_one z
    then returns none
    else (unwrap (try_from z) >>= λ u. unwrap (nonzero_new u) >>= λ n. returns (some n))

unfoldable pub env_num_threads : Option OsString → Run (Option ℕ)
unfolding num_threads_of
env_num_threads none = returns none
env_num_threads (some s) = num_threads_of (read_number s)

-- A `OnceLock`, which a panic of the closure leaves unset.
abbrev pub get_or_init : {A : Type 0} → Option A → Run A → Run A × Option A
get_or_init (some a) f = (returns a, some a)
get_or_init none (returns a) = (returns a, some a)
get_or_init none panics = (panics, none)

-- `available` is what `thread::available_parallelism` gives, if it gives a number.
abbrev pub or_available : Option ℕ → Option ℕ → Run ℕ
or_available available (some n) = returns n
or_available available none = unwrap (nonzero_new 1) >>= λ one. returns (unwrap_or one available)

-- The result, and ENV_NUM_THREADS afterwards.
unfoldable pub default_max_threads :
    Option ℕ → Option OsString → Option (Option ℕ) → Run ℕ × Option (Option ℕ)
unfolding env_num_threads
default_max_threads available variable once =
    let (number, once') = get_or_init once (env_num_threads variable) in
    (number >>= or_available available, once')
