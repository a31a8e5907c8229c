-- ===== src/Types/Errors.antt =====
-- What the functions of the SDK throw: an error of their own, or what a library function throws.
pub data Thrown : Type 0 where
  by_library : Thrown
  no_typed_data : Thrown
  no_valid_key : Thrown
  bad_public_keys : Thrown
  bad_prefix bad_length bad_scheme bad_points : Thrown
  undefined_entry : Thrown
  no_token : Thrown
  no_mesh_event : Thrown
