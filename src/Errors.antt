-- ===== src/Errors.antt =====
-- core/goofys.go and core/backend_s3.go: errors of the storage service as system errors, and which of
-- them are tried again. System errors are their numbers on Linux. An error of the AWS library is
-- either a failed request, which has an HTTP status, or a generic error; the other errors are told
-- apart by a number.
pub mod Mapping
use akavefs.Prelude.{ℕ, Bool, true, false, not, ◌&&◌, Option, none, some, ◌==◌, if◌then◌else◌}

abbrev pub enoent : ℕ
enoent = 2

abbrev pub eintr : ℕ
eintr = 4

abbrev pub enxio : ℕ
enxio = 6

abbrev pub eagain : ℕ
eagain = 11

abbrev pub eacces : ℕ
eacces = 13

abbrev pub ebusy : ℕ
ebusy = 16

abbrev pub eexist : ℕ
eexist = 17

abbrev pub einval : ℕ
einval = 22

abbrev pub erange : ℕ
erange = 34

abbrev pub enotsup : ℕ
enotsup = 95

-- The codes that the source tells apart, and any other one by a number.
pub data AwsCode : Type 0 where
  bucket_region_error : AwsCode
  no_such_bucket : AwsCode
  bucket_already_owned_by_you : AwsCode
  concurrent_updates_patch_conflict : AwsCode
  object_version_patch_conflict : AwsCode
  other_code : ℕ → AwsCode

pub data Error : Type 0 where
  errno : ℕ → Error
  request_failure : AwsCode → ℕ → Error
  generic : AwsCode → Error
  unknown : ℕ → Error

-- `none` is nil.
abbrev pub map_http_error : ℕ → Option ℕ
map_http_error status =
    if status == 400
    then some einval
    else if status == 401
    then some eacces
    else if status == 403
    then some eacces
    else if status == 404
    then some enoent
    else if status == 405
    then some enotsup
    else if status == 409
    then some eintr
    else if status == 416
    then some erange
    else if status == 429
    then some eagain
    else if status == 503
    then some eagain
    else if status == 500
    then some eagain
    else none

-- The switch on the code; `none` where it has no case.
abbrev pub by_code : AwsCode → Error → Option Error
by_code bucket_region_error err = some err
by_code no_such_bucket err = some (errno enxio)
by_code bucket_already_owned_by_you err = some (errno eexist)
by_code concurrent_updates_patch_conflict err = some (errno ebusy)
by_code object_version_patch_conflict err = some (errno ebusy)
by_code (other_code n) err = none

abbrev pub by_status : Option ℕ → Error → Error
by_status (some e) err = errno e
by_status none err = err

abbrev pub otherwise : Option Error → Error → Error
otherwise (some e) d = e
otherwise none d = d

abbrev pub map_error : Error → Error
map_error (errno n) = errno n
map_error (unknown n) = unknown n
map_error (generic code) = otherwise (by_code code (generic code)) (generic code)
map_error (request_failure code status) =
    otherwise (by_code code (request_failure code status))
      (by_status (map_http_error status) (request_failure code status))

abbrev pub map_aws_error : Option Error → Option Error
map_aws_error none = none
map_aws_error (some err) = some (map_error err)

abbrev pub is_errno : ℕ → Option Error → Bool
is_errno n (some (errno k)) = k == n
is_errno n _ = false

abbrev pub should_retry : Option Error → Bool
should_retry err =
    let mapped = map_aws_error err in
    not (is_errno enoent mapped)
    && not (is_errno einval mapped)
    && not (is_errno eacces mapped)
    && not (is_errno enotsup mapped)
    && not (is_errno erange mapped)
