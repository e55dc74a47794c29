-- ===== src/Examples/Packets.antt =====
-- The messages of zk/src/c/generated/zookeeper.jute.c at concrete values: a little-endian client and
-- a big-endian server.
use ruby_zookeeper.Prelude.{
  length, replicate, ok, fail, fault, ◌>>◌, ltb, ◌==◌, if◌then◌else◌, neg, to_size, ℕ, ◌+◌, ◌-◌,
  ◌^◌, ◌≤◌, ◌<◌, ◌≡◌, refl, Bool, true, false, none, some, List, [], ◌∷◌, ◌++◌, arith,
}
use ruby_zookeeper.Jute.Deserialize.{
  deserialize_string_vector, deserialize_set_watches, deserialize_request_header,
  deserialize_reply_header, deserialize_create_request, deserialize_get_data_response,
  deserialize_get_acl_response,
}
use ruby_zookeeper.Jute.Format.{
  IsAcl, IsStat, set_watches_bytes, IsRequestHeader, request_header_bytes, IsReplyHeader,
  reply_header_bytes, create_request_bytes, get_data_response_bytes, get_acl_response_bytes,
}
use ruby_zookeeper.Jute.Packets.{
  Carries, both, create_request-roundtrip, set_watches-roundtrip, get_data_response-roundtrip,
  get_acl_response-roundtrip,
}
use ruby_zookeeper.Jute.Serialize.{
  serialize_set_watches, serialize_request_header, serialize_reply_header, serialize_create_request,
  serialize_get_data_response, serialize_get_acl_response,
}
use ruby_zookeeper.Jute.Truncated.{deserialize_string_vector-cut}
use ruby_zookeeper.Jute.Types.{
  CString, Acl, Stat, SetWatches, RequestHeader, ReplyHeader, CreateRequest, GetDataResponse,
  GetAclResponse,
}
use ruby_zookeeper.Jute.Vector.{Vector, IsVector}
use ruby_zookeeper.RecordIo.{little, big}
use ruby_zookeeper.RecordIo.Archive.{
  enomem, Buffer, IArchive, check_remaining, ia_deserialize_int, ia_deserialize_string,
}
use ruby_zookeeper.RecordIo.Negative.{ia_deserialize_string-negative}
use ruby_zookeeper.RecordIo.Read.{IsText}
use ruby_zookeeper.RecordIo.Write.{buffer_of, IsBuffer}

abbrev always : ℕ → Bool
always n = true

abbrev always_at : ℕ → ℕ → Bool
always_at off n = true

-- "/a"
abbrev path : CString
path = some (47 ∷ 97 ∷ [])

abbrev pub body : Buffer
body = buffer_of (some (1 ∷ 2 ∷ 3 ∷ []))

pub body-IsBuffer : IsBuffer body
body-IsBuffer = (some (1 ∷ 2 ∷ 3 ∷ []), omega arith, refl)

-- world:anyone
abbrev anyone : Acl
anyone = record { perms = 31; id = record { scheme = some (119 ∷ []); id = some (97 ∷ []) } }

anyone-IsAcl : IsAcl anyone
anyone-IsAcl = record {
  perms_ok = omega arith;
  id_ok = record { scheme_ok = omega arith; id_ok = omega arith };
}

abbrev acls : Vector Acl
acls = record { count = 1; elements = anyone ∷ [] }

acls-IsVector : IsVector IsAcl acls
acls-IsVector = (refl, omega arith, (anyone-IsAcl, tt))

abbrev paths : Vector CString
paths = record { count = 2; elements = path ∷ some [] ∷ [] }

paths-IsVector : IsVector IsText paths
paths-IsVector = (refl, omega arith, (omega arith, (omega arith, tt)))

abbrev pub some_stat : Stat
some_stat = record {
  czxid = 1;
  mzxid = 2;
  ctime = 3;
  mtime = 4;
  version = 5;
  cversion = 6;
  aversion = 7;
  ephemeral_owner = 8;
  data_length = 9;
  num_children = 10;
  pzxid = 11;
}

pub some_stat-IsStat : IsStat some_stat
some_stat-IsStat = record {
  czxid_ok = omega arith;
  mzxid_ok = omega arith;
  ctime_ok = omega arith;
  mtime_ok = omega arith;
  version_ok = omega arith;
  cversion_ok = omega arith;
  aversion_ok = omega arith;
  ephemeral_owner_ok = omega arith;
  data_length_ok = omega arith;
  num_children_ok = omega arith;
  pzxid_ok = omega arith;
}

abbrev request : RequestHeader
request = record { xid = 7; type = 1 }

request-IsRequestHeader : IsRequestHeader request
request-IsRequestHeader = record { xid_ok = omega arith; type_ok = omega arith }

abbrev reply : ReplyHeader
reply = record { xid = 7; zxid = 9; err = 0 }

reply-IsReplyHeader : IsReplyHeader reply
reply-IsReplyHeader = record { xid_ok = omega arith; zxid_ok = omega arith; err_ok = omega arith }

abbrev a_create_request : CreateRequest
a_create_request = record { path = path; data_buffer = body; acl = acls; flags = 2 }

create_request-roundtrip_example :
    Carries
      (serialize_request_header little always request
        >> serialize_create_request little always a_create_request)
      (both (deserialize_request_header big always_at) (deserialize_create_request big always_at))
      (request_header_bytes request ++ create_request_bytes a_create_request)
      (request, a_create_request)
create_request-roundtrip_example =
    create_request-roundtrip always (λ n. refl) little always_at (λ off n. refl) big request
      a_create_request request-IsRequestHeader
      (record {
        path_ok = omega arith;
        data_buffer_ok = body-IsBuffer;
        acl_ok = acls-IsVector;
        flags_ok = omega arith;
      })
      (omega arith)

abbrev a_set_watches : SetWatches
a_set_watches = record {
  relative_zxid = 5;
  data_watches = paths;
  exist_watches = paths;
  child_watches = paths;
}

set_watches-roundtrip_example :
    Carries
      (serialize_request_header little always request
        >> serialize_set_watches little always a_set_watches)
      (both (deserialize_request_header big always_at) (deserialize_set_watches big always_at))
      (request_header_bytes request ++ set_watches_bytes a_set_watches)
      (request, a_set_watches)
set_watches-roundtrip_example =
    set_watches-roundtrip always (λ n. refl) little always_at (λ off n. refl) big request
      a_set_watches request-IsRequestHeader
      (record {
        relative_zxid_ok = omega arith;
        data_watches_ok = paths-IsVector;
        exist_watches_ok = paths-IsVector;
        child_watches_ok = paths-IsVector;
      })
      (omega arith)

abbrev pub a_get_data_response : GetDataResponse
a_get_data_response = record { data_buffer = body; stat = some_stat }

get_data_response-roundtrip_example :
    Carries
      (serialize_reply_header little always reply
        >> serialize_get_data_response little always a_get_data_response)
      (both (deserialize_reply_header big always_at) (deserialize_get_data_response big always_at))
      (reply_header_bytes reply ++ get_data_response_bytes a_get_data_response)
      (reply, a_get_data_response)
get_data_response-roundtrip_example =
    get_data_response-roundtrip always (λ n. refl) little always_at (λ off n. refl) big reply
      a_get_data_response reply-IsReplyHeader
      (record { data_buffer_ok = body-IsBuffer; stat_ok = some_stat-IsStat }) (omega arith)

abbrev a_get_acl_response : GetAclResponse
a_get_acl_response = record { acl = acls; stat = some_stat }

get_acl_response-roundtrip_example :
    Carries
      (serialize_reply_header little always reply
        >> serialize_get_acl_response little always a_get_acl_response)
      (both (deserialize_reply_header big always_at) (deserialize_get_acl_response big always_at))
      (reply_header_bytes reply ++ get_acl_response_bytes a_get_acl_response)
      (reply, a_get_acl_response)
get_acl_response-roundtrip_example =
    get_acl_response-roundtrip always (λ n. refl) little always_at (λ off n. refl) big reply
      a_get_acl_response reply-IsReplyHeader
      (record { acl_ok = acls-IsVector; stat_ok = some_stat-IsStat }) (omega arith)

-- The packet that `oa_serialize_string` makes of a null pointer.
abbrev null_string : IArchive
null_string = record { len = 4; off = 0; buffer = 255 ∷ 255 ∷ 255 ∷ 255 ∷ [] }

-- An allocator that has less than 2^63 bytes.
abbrev bounded : ℕ → ℕ → Bool
bounded off n = ltb n (2 ^ 63)

bounded-refuses : (off n : ℕ) → 2 ^ 63 ≤ n → bounded off n ≡ false
bounded-refuses off n huge = ground (arith, huge)

ia_deserialize_string-negative_example :
    (ia' : IArchive) × (ia_deserialize_int little null_string ≡ ok (neg 1) ia')
    × (check_remaining (neg 1) ia' ≡ ok tt ia')
    × (length ia'.buffer < ia'.off + to_size (neg 1))
    × (ia_deserialize_string little bounded null_string
        ≡ (if neg 1 == neg 1 then fault else fail (neg enomem) ia'))
ia_deserialize_string-negative_example =
    ia_deserialize_string-negative bounded little (neg 1) [] null_string (λ off. refl)
      bounded-refuses (omega arith) (omega arith)
      (record { bytes = refl; room = omega arith; fits = omega arith; small = omega arith })

-- A vector that says that it has three strings and ends behind the first.
abbrev cut_short : IArchive
cut_short = record { len = 10; off = 0; buffer = 0 ∷ 0 ∷ 0 ∷ 3 ∷ 0 ∷ 0 ∷ 0 ∷ 2 ∷ 47 ∷ 97 ∷ [] }

abbrev first_string : List CString
first_string = some (47 ∷ 97 ∷ []) ∷ []

deserialize_string_vector-cut_example :
    (ia' : IArchive) × (deserialize_string_vector little always_at cut_short
      ≡ ok
          (record {
            count = 3;
            elements = first_string ++ replicate (3 - length first_string) none;
          })
          ia')
deserialize_string_vector-cut_example =
    deserialize_string_vector-cut always_at (λ off n. refl) little 3 first_string cut_short
      (omega arith, tt) (omega arith) (omega arith)
      (record { bytes = refl; room = omega arith; fits = omega arith; small = omega arith }) refl
