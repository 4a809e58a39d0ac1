-- ===== src/Mirror/Url.antt =====
-- net/url and net.ParseIP, which are not in the repository: a parsed URL by what the code reads of
-- it, with the functions that make and print one as parameters.
use wrap.Base.{Bool, not, ◌&&◌, Option, is_empty, Bytes}

pub record Url : Type 0 where
  pub scheme : Bytes
  pub hostname : Bytes
  pub host : Bytes
  pub port : Bytes
  -- Whether there is a user, and how it is written.
  pub has_user : Bool
  pub user : Bytes
  pub path : Bytes
  pub raw_query : Bytes
  pub fragment : Bytes
  -- What only String reads.
  pub opaque : Bytes
  pub raw_path : Bytes
  pub raw_fragment : Bytes
  pub omit_host : Bool
  pub force_query : Bool

-- url.Parse, String, and of net.ParseIP whether it reads an address and whether that is a loopback one.
pub record UrlPackage : Type 0 where
  pub parse : Bytes → Option Url
  pub print : Url → Bytes
  pub is_ip : Bytes → Bool
  pub is_loopback : Bytes → Bool

-- Nothing but a scheme and a host, and perhaps a port.
unfoldable pub is_bare : Url → Bool
is_bare u = not u.has_user && is_empty u.path && is_empty u.raw_query && is_empty u.fragment
