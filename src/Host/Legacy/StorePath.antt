-- ===== src/Host/Legacy/StorePath.antt =====
-- The step from version 2 to version 3 puts the store path among the driver's fields.
use machine.Base.{◌≡◌, refl, Option, []}
use machine.Base.Int.{pos}
use machine.Base.Exec.{Result, ok, err}
use machine.Text.{Text, bytes}
use machine.Text.Dict.{Dict, insert}
use machine.Errors.{Error}
use machine.Host.{Host}
use machine.Host.Legacy.{
  RawDataDriver, V2, Codec, Decoded, undecodable, null_map, object, DriverField, missing, null, raw,
  with_store_path, v3_of, v3_from, migrate_host_v2_to_host_v3,
}

module _ {J : Type 0} (json : Codec J) (store_path : Text) where
  -- The text that encodes some fields of a driver together with the store path.
  abbrev pub Stored : Text → Type 0
  Stored text =
      (fields : Dict J) × (text
        ≡ json.encode_object (insert (bytes "StorePath") (json.string_value store_path) fields))

  abbrev pub IsV3 : Host (Option RawDataDriver) → Type 0
  IsV3 h = (h.config_version ≡ pos 2) × Stored h.raw_driver

  v3_of-IsV3 :
      (host_v2 : V2) (fields : Result Error (Dict J)) (h : Host (Option RawDataDriver))
      → v3_of json host_v2 fields ≡ ok h
      → (m : Dict J) × (fields ≡ ok m)
        × (h.config_version ≡ pos 2)
        × (h.raw_driver ≡ json.encode_object m)
  unfolding v3_of
  v3_of-IsV3 host_v2 (err e) h p = cc
  v3_of-IsV3 host_v2 (ok m) h p = (m, refl, cc, cc)

  with_store_path-Stored :
      (decoded : Decoded J) (m : Dict J)
      → with_store_path json store_path decoded ≡ ok m
      → Stored (json.encode_object m)
  unfolding with_store_path
  with_store_path-Stored undecodable m p = ([], cc)
  with_store_path-Stored null_map m p = cc
  with_store_path-Stored (object fields) m p = (fields, cc)

  v3_from-IsV3 :
      (host_v2 : V2) (field : DriverField) (h : Host (Option RawDataDriver))
      → v3_from json host_v2 field store_path ≡ ok h
      → IsV3 h
  unfolding v3_from
  v3_from-IsV3 host_v2 missing h p = cc
  v3_from-IsV3 host_v2 null h p = cc
  v3_from-IsV3 host_v2 (raw text) h p =
      let (m, e, version, encoded) =
        v3_of-IsV3 host_v2 (with_store_path json store_path (json.decode_object text)) h p in
      (version, rw encoded (with_store_path-Stored (json.decode_object text) m e))

  pub migrate_host_v2_to_host_v3-IsV3 :
      (host_v2 : V2) (data_text : Text) (h : Host (Option RawDataDriver))
      → migrate_host_v2_to_host_v3 json host_v2 data_text store_path ≡ ok h
      → IsV3 h
  unfolding migrate_host_v2_to_host_v3
  migrate_host_v2_to_host_v3-IsV3 host_v2 data_text h p =
      v3_from-IsV3 host_v2 (json.driver_field data_text) h p
