-- ===== src/Schemas.antt =====
-- app/schemas.py: the reservation rows of the reservation app's API, with the fields that the
-- controller reads. An instant is the number of microseconds since the least `datetime`, a
-- duration a number of microseconds. `status`, `kind` and the names are texts, as in the source.
use gpu_reservation_controll.Base.{ℕ, String, Option, none, some, ◌==◌, string_eq, Bool}

pub record UserBrief : Type 0 where
  pub id : ℕ
  pub username : String

pub record GroupBrief : Type 0 where
  pub id : ℕ
  pub name : String

pub record GpuClassBrief : Type 0 where
  pub id : ℕ
  pub name : String
  pub label_value : Option String

pub record ReservationResponse : Type 0 where
  pub id : ℕ
  pub user_id : Option ℕ
  pub user : Option UserBrief
  pub group_id : Option ℕ
  pub group : Option GroupBrief
  pub gpu_class_id : ℕ
  pub gpu_class : GpuClassBrief
  pub start_utc : ℕ
  pub end_utc : ℕ
  pub gpu_count : ℕ
  pub status : String
  pub kind : String
  pub cancelled_by_id : Option ℕ
  pub cancel_reason : Option String

pub record GpuClassDetail : Type 0 where
  pub brief : GpuClassBrief
  pub open brief use *
  pub total_gpus : Option ℕ
  pub effective_gpus_today : Option ℕ

-- The override-resolved count, or else the configured default.
unfoldable pub audit_gpus : GpuClassDetail → Option ℕ
audit_gpus d = elim d.effective_gpus_today [ none ↦ d.total_gpus | some n ↦ some n ]

-- `slot_start` and `slot_end` of app/controller.py.
abbrev pub slot_start : ReservationResponse → ℕ
slot_start r = r.start_utc

abbrev pub slot_end : ReservationResponse → ℕ
slot_end r = r.end_utc

-- `r.user is not None and r.user.username == name`.
unfoldable pub owned_by : String → ReservationResponse → Bool
owned_by name r = elim r.user [ none ↦ Bool.false | some u ↦ u.username == name ]

abbrev pub is_booking : ReservationResponse → Bool
is_booking r = r.kind == "booking"
