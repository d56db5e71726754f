-- ===== src/Contracts/Kinds.antt =====
-- The words of the string fields of types.go, as engine.go writes them.
pub data Role : Type 0 where
  unset root tld authoritative alias final error : Role

pub data HopPurpose : Type 0 where
  unset delegation cname_follow nameserver_address_lookup : HopPurpose

pub data ResponseKind : Type 0 where
  unset answer nodata cname referral error : ResponseKind

pub data Transport : Type 0 where
  unset udp tcp : Transport

pub data OutcomeKind : Type 0 where
  success timeout loop_detected max_depth unusable_referral : OutcomeKind
  nxdomain servfail refused not_implemented : OutcomeKind

pub data Status : Type 0 where
  success failure : Status
