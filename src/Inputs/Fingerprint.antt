-- ===== src/Inputs/Fingerprint.antt =====
-- `FingerprintResult` of packages/daemon/src/inputs/fingerprint.ts, with `fingerprintDigest` of
-- query/test-states.ts.
use rt_test.Base.{Option, none, some, Text}

pub data FingerprintResult : Type 0 where
  fingerprinted : (digest : Text) → FingerprintResult
  unfingerprinted : (reason : Text) → FingerprintResult

abbrev pub fingerprint_digest : FingerprintResult → Option Text
fingerprint_digest (fingerprinted digest) = some digest
fingerprint_digest (unfingerprinted reason) = none
