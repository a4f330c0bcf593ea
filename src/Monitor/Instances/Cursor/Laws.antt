-- ===== src/Monitor/Instances/Cursor/Laws.antt =====
-- An encoded cursor is read back, under its own filters only.
use rochallor_engine.Base.{false, some, ◌≡◌, arith, is_empty, ◌==◌, if◌then◌else◌}
use rochallor_engine.Monitor.Request.{ok, bad_request, Platform, IsPlatform}
use rochallor_engine.Monitor.Instances.{InstanceItem, InstanceFilters}
use rochallor_engine.Monitor.Instances.Cursor.{
  Fingerprinted, InstanceCursor, filter_fingerprint, encode_cursor, checked_cursor, decode_cursor,
}

module _ {T : Type 0} (platform : Platform T InstanceCursor Fingerprinted)
    (laws : IsPlatform platform) (filters other : InstanceFilters) (item : InstanceItem)
    (named : is_empty item.id ≡ false) where
  -- A cursor that was encoded under some filters is accepted under others exactly if the two have
  -- one fingerprint, and then gives the start, to the millisecond, and the id of its item. Any
  -- other is a bad request.
  pub decode_cursor-encode_cursor :
      decode_cursor platform other (encode_cursor platform filters item) ≡ (
        if filter_fingerprint platform filters == filter_fingerprint platform other
        then ok (platform.to_iso_string item.started_at, item.id)
        else bad_request "Invalid cursor")
  unfolding decode_cursor encode_cursor checked_cursor
  decode_cursor-encode_cursor = ground (
    arith,
    laws.decoded (record {
      v = some 1;
      started_at = some (platform.to_iso_string item.started_at);
      id = some item.id;
      filters = some (filter_fingerprint platform filters);
    }),
    laws.iso_parsed item.started_at,
    named,
  )
