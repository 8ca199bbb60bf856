-- ===== src/Alarm/Header.antt =====
-- The header of an alarm file: _normalize_token, _HEADER_ALIASES, _resolve_header and _cell of
-- app/inspectors/alarm/common.py. `str.lower`, a table of Unicode, is a parameter.
use patrol_x.Base.{
  ℕ, ◌+◌, Bool, true, false, not, ◌==◌, List, [], ◌∷◌, ◌++◌, Option, none, some, if◌then◌else◌,
}
use patrol_x.Base.Lists.{any, all, is_nil, get_elem?, keep}
use patrol_x.Base.Text.{Text, codes, text_eq, strip, is_space, onto_head, join_char}

-- The keys of _HEADER_ALIASES, in its order.
pub data Field : Type 0 where
  serial_no app_id app_name alarm_id alarm_name severity raised_at cleared_at state : Field
  repeat_times location_info additional_info pod_name located_device service_name : Field
  alarm_source event_type : Field

abbrev pub fields : List Field
fields =
    serial_no ∷ app_id ∷ app_name ∷ alarm_id ∷ alarm_name ∷ severity ∷ raised_at ∷ cleared_at
    ∷ state ∷ repeat_times ∷ location_info ∷ additional_info ∷ pod_name ∷ located_device
    ∷ service_name ∷ alarm_source ∷ event_type ∷ []

unfoldable pub header_aliases : Field → List Text
header_aliases serial_no =
    codes "serial no."
    ∷ codes "serial no"
    ∷ codes "serial number"
    ∷ codes "serial"
    ∷ codes "告警流水号"
    ∷ codes "流水号"
    ∷ codes "序列号"
    ∷ []
header_aliases app_id = codes "app id" ∷ codes "应用id" ∷ codes "应用 ID" ∷ []
header_aliases app_name =
    codes "app name" ∷ codes "application name" ∷ codes "应用名称" ∷ codes "应用名" ∷ codes "appname" ∷ []
header_aliases alarm_id = codes "alarm id" ∷ codes "alarmid" ∷ codes "告警id" ∷ codes "告警 ID" ∷ []
header_aliases alarm_name =
    codes "alarm name" ∷ codes "alarmname" ∷ codes "告警名称" ∷ codes "告警名" ∷ codes "告警标题" ∷ []
header_aliases severity =
    codes "alarm severity"
    ∷ codes "severity"
    ∷ codes "level"
    ∷ codes "alarm level"
    ∷ codes "告警级别"
    ∷ codes "告警等级"
    ∷ codes "级别"
    ∷ []
header_aliases raised_at =
    codes "raised time"
    ∷ codes "raise time"
    ∷ codes "alarm time"
    ∷ codes "occurred time"
    ∷ codes "发生时间"
    ∷ codes "上报时间"
    ∷ codes "告警时间"
    ∷ []
header_aliases cleared_at =
    codes "cleared time"
    ∷ codes "clear time"
    ∷ codes "recovered time"
    ∷ codes "清除时间"
    ∷ codes "恢复时间"
    ∷ []
header_aliases state =
    codes "whether cleared"
    ∷ codes "cleared status"
    ∷ codes "alarm status"
    ∷ codes "status"
    ∷ codes "清除类型"
    ∷ codes "告警状态"
    ∷ codes "清除状态"
    ∷ codes "状态"
    ∷ []
header_aliases repeat_times =
    codes "repeat times"
    ∷ codes "repeat count"
    ∷ codes "repetition times"
    ∷ codes "告警重复次数"
    ∷ codes "重复次数"
    ∷ []
header_aliases location_info =
    codes "location info"
    ∷ codes "location information"
    ∷ codes "location"
    ∷ codes "定位信息"
    ∷ codes "位置信息"
    ∷ []
header_aliases additional_info =
    codes "additional information"
    ∷ codes "additional info"
    ∷ codes "extra information"
    ∷ codes "附加信息"
    ∷ codes "扩展信息"
    ∷ []
header_aliases pod_name =
    codes "pod name" ∷ codes "pod" ∷ codes "podname" ∷ codes "pod名称" ∷ codes "实例名称" ∷ []
header_aliases located_device =
    codes "located device"
    ∷ codes "device"
    ∷ codes "device name"
    ∷ codes "定位设备"
    ∷ codes "设备"
    ∷ codes "设备名称"
    ∷ []
header_aliases service_name =
    codes "service name" ∷ codes "service" ∷ codes "服务名称" ∷ codes "服务" ∷ []
header_aliases alarm_source =
    codes "alarm source"
    ∷ codes "alarm source name"
    ∷ codes "告警源"
    ∷ codes "告警来源"
    ∷ codes "告警源名称"
    ∷ []
header_aliases event_type = codes "event type" ∷ codes "事件类型" ∷ codes "告警类型" ∷ []

-- _REQUIRED_FIELDS
abbrev pub required_fields : List Field
required_fields = app_name ∷ alarm_id ∷ alarm_name ∷ severity ∷ raised_at ∷ state ∷ []

abbrev pub Positions : Type 0
Positions = Field → Option ℕ

pub record Header : Type 0 where
  pub positions : Positions
  pub unknown : List Text

abbrev pub field_index : Field → ℕ
field_index serial_no = 0
field_index app_id = 1
field_index app_name = 2
field_index alarm_id = 3
field_index alarm_name = 4
field_index severity = 5
field_index raised_at = 6
field_index cleared_at = 7
field_index state = 8
field_index repeat_times = 9
field_index location_info = 10
field_index additional_info = 11
field_index pod_name = 12
field_index located_device = 13
field_index service_name = 14
field_index alarm_source = 15
field_index event_type = 16

-- `positions.setdefault(field, index)`
abbrev pub set_default : Field → ℕ → Positions → Positions
set_default f index p g =
    if field_index f == field_index g
    then elim (p g) [ none ↦ some index | some i ↦ some i ]
    else p g

abbrev pub starts_word : Text → Bool
starts_word [] = false
starts_word (d ∷ t) = not (is_space d)

-- `s.split()`: the words between runs of white space
unfoldable pub split_words : Text → List Text
split_words [] = []
split_words (c ∷ s) =
    let rest = split_words s in
    if is_space c then rest else if starts_word s then onto_head c rest else (c ∷ []) ∷ rest

abbrev pub byte_order_mark : ℕ
byte_order_mark = 0xfeff

abbrev pub drop_mark : Text → Text
drop_mark s = keep (λ c. not (c == byte_order_mark)) s

module _ (lower : Text → Text) where
  -- _normalize_token
  unfoldable pub normalize_token : Text → Text
  unfolding split_words strip
  normalize_token value = join_char 32 (split_words (lower (strip (drop_mark value))))

  abbrev pub names_field : Text → Field → Bool
  names_field token f = any (λ alias. text_eq token (normalize_token alias)) (header_aliases f)

  -- The first field that has the token among its aliases: none if it is not in _KNOWN_HEADERS.
  unfoldable pub field_of : Text → List Field → Option Field
  field_of token [] = none
  field_of token (f ∷ rest) = if names_field token f then some f else field_of token rest

  -- The loop of _resolve_header, from column `index` on.
  unfoldable pub resolve_from : ℕ → List Text → Header → Header
  resolve_from index [] h = h
  resolve_from index (raw ∷ rest) h =
      let display = strip (drop_mark raw) in
      let token = normalize_token display in
      resolve_from (index + 1) rest (
        if is_nil token then h else elim (field_of token fields) [
          | none ↦ record h { unknown = h.unknown ++ display ∷ [] }
          | some f ↦ record h { positions = set_default f index h.positions }
        ])

  unfoldable pub resolve_header : List Text → Header
  unfolding normalize_token field_of resolve_from header_aliases
  resolve_header raw_headers =
      resolve_from 0 raw_headers (record { positions = λ f. none; unknown = [] })

-- `not (_REQUIRED_FIELDS - header.positions.keys())`
abbrev pub is_present : Option ℕ → Bool
is_present none = false
is_present (some i) = true

unfoldable pub has_required : Header → Bool
has_required h = all (λ f. is_present (h.positions f)) required_fields

abbrev pub cell_at : Option Text → Text
cell_at none = []
cell_at (some v) = strip v

-- _cell
unfoldable pub cell : List Text → Header → Field → Text
unfolding strip
cell row header f = elim (header.positions f) [
  | none ↦ []
  | some index ↦ cell_at (get_elem? row index)
]
