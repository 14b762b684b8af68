-- ===== src/Cli/Format.antt =====
-- cli/src/message_format.cpp and cli/include/cli/message_format.h: the message types that `mm` knows
-- and how it prints them. Protobuf and the printing of floating-point numbers are parameters: the
-- fields of a message as they are printed, or none if the bytes do not parse.
use mini_middleware.Prelude.{
  ℕ, List, [], ◌∷◌, ◌++◌, Bool, true, false, ◌||◌, Option, none, some, Bytes, bytes_eq, codes,
  to_string, if◌then◌else◌,
}

pub record FormatResult : Type 0 where
  pub ok : Bool
  pub text : Bytes
  pub error : Bytes

-- StringMsg's data, Point3D's x, y and z, PointCloud's timestamp, frame_id and points_size.
pub record Protobuf : Type 0 where
  pub parse_string : Bytes → Option Bytes
  pub parse_point : Bytes → Option (Bytes × Bytes × Bytes)
  pub parse_cloud : Bytes → Option (Bytes × Bytes × ℕ)

abbrev pub string_type : Bytes
string_type = codes "mm.StringMsg"

abbrev pub point_type : Bytes
point_type = codes "mm.Point3D"

abbrev pub cloud_type : Bytes
cloud_type = codes "mm.PointCloud"

unfoldable pub supported_message_types : List Bytes
supported_message_types = string_type ∷ point_type ∷ cloud_type ∷ []

unfoldable pub is_among : Bytes → List Bytes → Bool
is_among name [] = false
is_among name (type ∷ types) = bytes_eq name type || is_among name types

unfoldable pub is_supported_message_type : Bytes → Bool
unfolding supported_message_types is_among
is_supported_message_type type_name = is_among type_name supported_message_types

abbrev pub parse_error : Bytes → FormatResult
parse_error type_name = record {
  ok = false;
  text = [];
  error = codes "failed to parse " ++ type_name;
}

abbrev pub unsupported_error : Bytes → FormatResult
unsupported_error type_name = record {
  ok = false;
  text = [];
  error = codes "unsupported message type: " ++ type_name;
}

abbrev pub ok_result : Bytes → FormatResult
ok_result text = record { ok = true; text = text; error = [] }

format_string : Bytes → Option Bytes → FormatResult
format_string type_name none = parse_error type_name
format_string type_name (some data_) = ok_result (codes "data: " ++ data_)

format_point : Bytes → Option (Bytes × Bytes × Bytes) → FormatResult
format_point type_name none = parse_error type_name
format_point type_name (some (x, y, z)) =
    ok_result (codes "x: " ++ x ++ codes "\ny: " ++ y ++ codes "\nz: " ++ z)

format_cloud : Bytes → Option (Bytes × Bytes × ℕ) → FormatResult
format_cloud type_name none = parse_error type_name
format_cloud type_name (some (timestamp, frame_id, points)) = ok_result (
    codes "timestamp: "
    ++ timestamp
    ++ codes "\nframe_id: "
    ++ frame_id
    ++ codes "\npoints: "
    ++ to_string points)

unfoldable pub format_message : Protobuf → Bytes → Bytes → FormatResult
unfolding format_string format_point format_cloud
format_message pb type_name bytes =
    if bytes_eq type_name string_type
    then format_string type_name (pb.parse_string bytes)
    else if bytes_eq type_name point_type
    then format_point type_name (pb.parse_point bytes)
    else if bytes_eq type_name cloud_type
    then format_cloud type_name (pb.parse_cloud bytes)
    else unsupported_error type_name
