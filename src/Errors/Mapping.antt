-- ===== src/Errors/Mapping.antt =====
-- core/goofys.go, core/backend_s3.go: what errors `mapAwsError` and `shouldRetry` tell apart.
use akavefs.Prelude.{
  ◌==◌, ◌||◌, Bool, false, List, [], ◌∷◌, arith, ℕ, ◌≡◌, refl, ap, not, Option, none, some,
}
use akavefs.Errors.{
  bucket_region_error, no_such_bucket, bucket_already_owned_by_you,
  concurrent_updates_patch_conflict, object_version_patch_conflict, other_code, Error, errno,
  request_failure, generic, unknown, map_http_error, by_status, map_error, map_aws_error,
  should_retry, is_errno, enoent, einval, eacces, enotsup, erange, eagain,
}

by_status-twice :
    (n status : ℕ) (o : Option ℕ)
    → map_http_error status ≡ o
    → map_error (by_status o (request_failure (other_code n) status))
      ≡ by_status o (request_failure (other_code n) status)
by_status-twice n status (some e) h = refl
by_status-twice n status none h = ap (λ o. by_status o (request_failure (other_code n) status)) h

map_error-twice : (err : Error) → map_error (map_error err) ≡ map_error err
map_error-twice (errno n) = refl
map_error-twice (unknown n) = refl
map_error-twice (generic bucket_region_error) = refl
map_error-twice (generic no_such_bucket) = refl
map_error-twice (generic bucket_already_owned_by_you) = refl
map_error-twice (generic concurrent_updates_patch_conflict) = refl
map_error-twice (generic object_version_patch_conflict) = refl
map_error-twice (generic (other_code n)) = refl
map_error-twice (request_failure bucket_region_error status) = refl
map_error-twice (request_failure no_such_bucket status) = refl
map_error-twice (request_failure bucket_already_owned_by_you status) = refl
map_error-twice (request_failure concurrent_updates_patch_conflict status) = refl
map_error-twice (request_failure object_version_patch_conflict status) = refl
map_error-twice (request_failure (other_code n) status) =
    by_status-twice n status (map_http_error status) refl

abbrev pub one_of : ℕ → List ℕ → Bool
one_of n [] = false
one_of n (x ∷ xs) = n == x || one_of n xs

-- The object is missing: ENOENT, or 404 without a code that has a meaning of its own.
abbrev pub is_missing : Error → Bool
is_missing (errno n) = n == enoent
is_missing (request_failure (other_code n) status) = one_of status (404 ∷ [])
is_missing _ = false

-- The service is busy or broken for now.
abbrev pub is_overloaded : Error → Bool
is_overloaded (errno n) = n == eagain
is_overloaded (request_failure (other_code n) status) = one_of status (429 ∷ 500 ∷ 503 ∷ [])
is_overloaded _ = false

-- The request itself is refused: it would be refused again.
abbrev pub is_refused : Error → Bool
is_refused (errno n) = one_of n (enoent ∷ einval ∷ eacces ∷ enotsup ∷ erange ∷ [])
is_refused (request_failure (other_code n) status) =
    one_of status (400 ∷ 401 ∷ 403 ∷ 404 ∷ 405 ∷ 416 ∷ [])
is_refused _ = false

-- An error is mapped to ENOENT exactly if the object is missing, to EAGAIN exactly if the service is
-- busy or broken for now, and is tried again exactly unless the request itself is refused: of failed
-- requests without a code of their own by the HTTP status, of system errors by their number, and of no
-- other error. To map an error twice is to map it once.
pub map_aws_error-classes :
    (err : Error)
    → (is_errno enoent (map_aws_error (some err)) ≡ is_missing err)
      × (is_errno eagain (map_aws_error (some err)) ≡ is_overloaded err)
      × (should_retry (some err) ≡ not (is_refused err))
      × (map_aws_error (map_aws_error (some err)) ≡ map_aws_error (some err))
map_aws_error-classes (errno n) = (refl, refl, ground arith, refl)
map_aws_error-classes (unknown n) = (refl, refl, refl, refl)
map_aws_error-classes (generic bucket_region_error) = (refl, refl, refl, refl)
map_aws_error-classes (generic no_such_bucket) = (refl, refl, refl, refl)
map_aws_error-classes (generic bucket_already_owned_by_you) = (refl, refl, refl, refl)
map_aws_error-classes (generic concurrent_updates_patch_conflict) = (refl, refl, refl, refl)
map_aws_error-classes (generic object_version_patch_conflict) = (refl, refl, refl, refl)
map_aws_error-classes (generic (other_code n)) = (refl, refl, refl, refl)
map_aws_error-classes (request_failure bucket_region_error status) = (refl, refl, refl, refl)
map_aws_error-classes (request_failure no_such_bucket status) = (refl, refl, refl, refl)
map_aws_error-classes (request_failure bucket_already_owned_by_you status) =
    (refl, refl, refl, refl)
map_aws_error-classes (request_failure concurrent_updates_patch_conflict status) =
    (refl, refl, refl, refl)
map_aws_error-classes (request_failure object_version_patch_conflict status) =
    (refl, refl, refl, refl)
map_aws_error-classes (request_failure (other_code n) status) =
    let e = map_error-twice (request_failure (other_code n) status) in
    (ground arith, ground arith, ground arith, ap some e)
