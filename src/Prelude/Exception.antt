-- ===== src/Prelude/Exception.antt =====
-- The exceptions that the program raises or tells apart, `str` of each, and its `except` clauses.
use eous.Prelude.{Bool, true, false, ◌≡◌, []}
use eous.Prelude.Text.{Text, codes}
use eous.Prelude.Outcome.{Outcome, ok, raise, ◌>>=◌, Ensures}

-- The first three are `LoaderError` of loader.py and its two subclasses. `other_error` is any other
-- class, with its name. `broken_pipe` is an OSError whose `errno` is EPIPE.
pub data Exception : Type 0 where
  loader_error unsupported_format_error unsupported_arch_error : Text → Exception
  os_error broken_pipe value_error type_error runtime_error : Text → Exception
  memory_error : Exception
  other_error : Text → Text → Exception

-- `str(exc)`; of an OSError the text is its `strerror`.
abbrev pub message : Exception → Text
message (loader_error text) = text
message (unsupported_format_error text) = text
message (unsupported_arch_error text) = text
message (os_error text) = text
message (broken_pipe text) = text
message (value_error text) = text
message (type_error text) = text
message (runtime_error text) = text
message memory_error = []
message (other_error name text) = text

-- `type(exc).__name__`
abbrev pub class_name : Exception → Text
class_name (loader_error text) = codes "LoaderError"
class_name (unsupported_format_error text) = codes "UnsupportedFormatError"
class_name (unsupported_arch_error text) = codes "UnsupportedArchError"
class_name (os_error text) = codes "OSError"
class_name (broken_pipe text) = codes "BrokenPipeError"
class_name (value_error text) = codes "ValueError"
class_name (type_error text) = codes "TypeError"
class_name (runtime_error text) = codes "RuntimeError"
class_name memory_error = codes "MemoryError"
class_name (other_error name text) = name

-- `isinstance(exc, LoaderError)`
abbrev pub is_loader_error : Exception → Bool
is_loader_error (loader_error text) = true
is_loader_error (unsupported_format_error text) = true
is_loader_error (unsupported_arch_error text) = true
is_loader_error _ = false

abbrev pub is_os_error : Exception → Bool
is_os_error (os_error text) = true
is_os_error (broken_pipe text) = true
is_os_error _ = false

-- An OSError whose `errno` is EPIPE.
abbrev pub is_broken_pipe : Exception → Bool
is_broken_pipe (broken_pipe text) = true
is_broken_pipe _ = false

abbrev pub is_value_error : Exception → Bool
is_value_error (value_error text) = true
is_value_error _ = false

abbrev pub is_memory_error : Exception → Bool
is_memory_error memory_error = true
is_memory_error _ = false

-- A call whose exceptions all pass a test.
abbrev pub Raises {ℓ} : {A : Type ℓ} → (Exception → Bool) → Outcome Exception A → Type 0
Raises p (ok a) = Unit
Raises p (raise e) = p e ≡ true

-- An `except` clause: what a call that raised does instead.
abbrev pub catch {ℓ} :
    {A : Type ℓ} → Outcome Exception A → (Exception → Outcome Exception A) → Outcome Exception A
catch (ok a) handler = ok a
catch (raise e) handler = handler e

pub Raises->>= {ℓ κ} :
    {A : Type ℓ} {B : Type κ} (p : Exception → Bool) (m : Outcome Exception A)
    (f : A → Outcome Exception B)
    → Raises p m
    → ((a : A) → Raises p (f a))
    → Raises p (m >>= f)
Raises->>= p (ok a) f h k = k a
Raises->>= p (raise e) f h k = h

-- A handler that raises another exception.
pub Raises-catch {ℓ} :
    {A : Type ℓ} (p q : Exception → Bool) (m : Outcome Exception A) (g : Exception → Exception)
    → Raises p m
    → ((e : Exception) → p e ≡ true → q (g e) ≡ true)
    → Raises q (catch m (λ e. raise (g e)))
Raises-catch p q (ok a) g h k = tt
Raises-catch p q (raise e) g h k = k e h

pub Ensures-catch {ℓ κ} :
    {A : Type ℓ} (P : A → Type κ) (m : Outcome Exception A) (g : Exception → Exception)
    → Ensures P m
    → Ensures P (catch m (λ e. raise (g e)))
Ensures-catch P (ok a) g h = h
Ensures-catch P (raise e) g h = tt

-- The exception that was raised.
pub Raises-raise {ℓ} :
    {A : Type ℓ} (p : Exception → Bool) (m : Outcome Exception A) {e : Exception}
    → m ≡ raise e
    → Raises p m
    → p e ≡ true
Raises-raise p (ok a) h k = cc
Raises-raise p (raise x) h k = cc

-- A call that returned, though a handler would have raised another exception.
pub catch-eq-ok {ℓ} :
    {A : Type ℓ} (m : Outcome Exception A) (g : Exception → Exception) {a : A}
    → catch m (λ e. raise (g e)) ≡ ok a
    → m ≡ ok a
catch-eq-ok (ok x) g h = h
catch-eq-ok (raise e) g h = cc
