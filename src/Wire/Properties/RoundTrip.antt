-- ===== src/Wire/Properties/RoundTrip.antt =====
-- Every property struct is read back as it was written. `Fits` says of a struct what its Go types
-- say: the range of each integer; and that a binary property which is there is not empty, since the
-- decoder reads an empty one as nil.
pub mod Ranges
pub mod Publish
pub mod Connect
pub mod ConnAck
pub mod Reasons
pub use Ranges.{Below, IsSolid}
pub use Publish.{PublishFits, append_publish_properties-Loads}
pub use Connect.{ConnectFits, append_connect_properties-Loads}
pub use ConnAck.{ConnAckFits, append_connack_properties-Loads}
pub use Reasons.{
  DisconnectFits, AuthFits, append_subscribe_properties-Loads, append_reason_properties-Loads,
  append_unsubscribe_properties-Loads, append_disconnect_properties-Loads,
  append_auth_properties-Loads,
}
