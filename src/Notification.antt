-- ===== src/Notification.antt =====
-- crates/notification/src/types.rs: the data of the notification server. Times are numbers:
-- milliseconds for a `Duration`, nanoseconds for a `SystemTime`.
pub mod Hints
pub mod History
pub mod Stored
pub mod Server
use Prim.Native.String.{String}
use de.Prelude.{ℕ, Bool, Option, List, ℤ}

pub data Urgency : Type 0 where
  low normal critical : Urgency

pub data NotificationImage : Type 0 where
  path : String → NotificationImage
  image_data : (width height : ℤ) → (pixels : List ℕ) → NotificationImage

pub data CloseReason : Type 0 where
  expired dismissed closed_by_app undefined_reason : CloseReason

unfoldable pub as_u32 : CloseReason → ℕ
as_u32 expired = 1
as_u32 dismissed = 2
as_u32 closed_by_app = 3
as_u32 undefined_reason = 4

pub record Notification : Type 0 where
  pub id : ℕ
  pub app_name : String
  pub app_icon : String
  pub summary : String
  pub body : String
  pub actions : List (String × String)
  pub urgency : Urgency
  pub image : Option NotificationImage
  pub expire_timeout : Option ℕ
  pub timestamp : ℕ
  pub category : Option String
  pub desktop_entry : Option String
  pub transient : Bool
  pub resident : Bool

pub data NotificationEvent : Type 0 where
  arrived : Notification → NotificationEvent
  replaced : (old_id : ℕ) → Notification → NotificationEvent
  closed : (id : ℕ) → CloseReason → NotificationEvent
  invoked : (id : ℕ) → (action : String) → NotificationEvent
