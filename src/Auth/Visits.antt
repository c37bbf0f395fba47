-- ===== src/Auth/Visits.antt =====
-- What a visit records and what a locked account is told: `parseUserAgent` and
-- `formatMinutesLeft` of apps/api-gateway/src/modules/auth/auth.service.ts. The patterns have ASCII
-- letters only, whose case is ignored.
use crm_system_backend.Prelude.{
  ℕ, ◌+◌, ◌-◌, ◌*◌, ◌/◌, ◌%◌, ◌≤◌, ◌<◌, ◌≡◌, max, Bool, true, false, not, ◌&&◌, ◌||◌, Option, none,
  some, [], ◌∷◌, arith, ltb, leb, ◌==◌, if◌then◌else◌,
}
use crm_system_backend.Prelude.Text.{Text, is_empty, to_lower_case}

-- `/needle/i.test(ua)`, the needle in lower case.
abbrev starts_with : Text → Text → Bool
starts_with [] t = true
starts_with (n ∷ ns) [] = false
starts_with (n ∷ ns) (c ∷ cs) = n == c && starts_with ns cs

abbrev includes_text : Text → Text → Bool
includes_text needle [] = starts_with needle []
includes_text needle (c ∷ cs) = starts_with needle (c ∷ cs) || includes_text needle cs

unfoldable pub mentions : Text → Text → Bool
mentions needle ua = includes_text needle (to_lower_case ua)

abbrev pub edg_slash : Text
edg_slash = b'e' ∷ b'd' ∷ b'g' ∷ b'/' ∷ []

abbrev pub edg : Text
edg = b'e' ∷ b'd' ∷ b'g' ∷ []

abbrev pub opr : Text
opr = b'o' ∷ b'p' ∷ b'r' ∷ []

abbrev pub opera : Text
opera = b'o' ∷ b'p' ∷ b'e' ∷ b'r' ∷ b'a' ∷ []

abbrev pub chrome : Text
chrome = b'c' ∷ b'h' ∷ b'r' ∷ b'o' ∷ b'm' ∷ b'e' ∷ []

abbrev pub chromium : Text
chromium = b'c' ∷ b'h' ∷ b'r' ∷ b'o' ∷ b'm' ∷ b'i' ∷ b'u' ∷ b'm' ∷ []

abbrev pub safari : Text
safari = b's' ∷ b'a' ∷ b'f' ∷ b'a' ∷ b'r' ∷ b'i' ∷ []

abbrev pub firefox : Text
firefox = b'f' ∷ b'i' ∷ b'r' ∷ b'e' ∷ b'f' ∷ b'o' ∷ b'x' ∷ []

abbrev pub windows_nt : Text
windows_nt = b'w' ∷ b'i' ∷ b'n' ∷ b'd' ∷ b'o' ∷ b'w' ∷ b's' ∷ b' ' ∷ b'n' ∷ b't' ∷ []

abbrev pub mac_os_x : Text
mac_os_x = b'm' ∷ b'a' ∷ b'c' ∷ b' ' ∷ b'o' ∷ b's' ∷ b' ' ∷ b'x' ∷ []

abbrev pub android : Text
android = b'a' ∷ b'n' ∷ b'd' ∷ b'r' ∷ b'o' ∷ b'i' ∷ b'd' ∷ []

abbrev pub iphone : Text
iphone = b'i' ∷ b'p' ∷ b'h' ∷ b'o' ∷ b'n' ∷ b'e' ∷ []

abbrev pub ipad : Text
ipad = b'i' ∷ b'p' ∷ b'a' ∷ b'd' ∷ []

abbrev pub ipod : Text
ipod = b'i' ∷ b'p' ∷ b'o' ∷ b'd' ∷ []

abbrev pub linux : Text
linux = b'l' ∷ b'i' ∷ b'n' ∷ b'u' ∷ b'x' ∷ []

abbrev pub mobile : Text
mobile = b'm' ∷ b'o' ∷ b'b' ∷ b'i' ∷ b'l' ∷ b'e' ∷ []

abbrev pub tablet : Text
tablet = b't' ∷ b'a' ∷ b'b' ∷ b'l' ∷ b'e' ∷ b't' ∷ []

pub data Browser : Type 0 where
  edge_browser opera_browser chrome_browser safari_browser firefox_browser : Browser

pub data Os : Type 0 where
  windows_os mac_os android_os ios linux_os : Os

pub data Device : Type 0 where
  mobile_device tablet_device desktop_device : Device

pub record UserAgent : Type 0 where
  pub device : Option Device
  pub browser : Option Browser
  pub os : Option Os

abbrev pub browser_of : Text → Option Browser
browser_of ua =
    if mentions edg_slash ua
    then some edge_browser
    else if mentions opr ua || mentions opera ua
    then some opera_browser
    else if mentions chrome ua && not (mentions chromium ua || mentions edg ua)
    then some chrome_browser
    else if mentions safari ua && not (mentions chrome ua)
    then some safari_browser
    else if mentions firefox ua
    then some firefox_browser
    else none

abbrev pub os_of : Text → Option Os
os_of ua =
    if mentions windows_nt ua
    then some windows_os
    else if mentions mac_os_x ua
    then some mac_os
    else if mentions android ua
    then some android_os
    else if mentions iphone ua || (mentions ipad ua || mentions ipod ua)
    then some ios
    else if mentions linux ua
    then some linux_os
    else none

abbrev pub device_of : Text → Device
device_of ua =
    if mentions mobile ua || (mentions android ua || mentions iphone ua)
    then mobile_device
    else if mentions tablet ua || mentions ipad ua
    then tablet_device
    else desktop_device

-- `parseUserAgent`.
unfoldable pub parse_user_agent : Text → UserAgent
parse_user_agent ua =
    if is_empty ua
    then record { device = none; browser = none; os = none }
    else record { device = some (device_of ua); browser = browser_of ua; os = os_of ua }

-- The forms of the word for minutes after a number.
pub data Minutes : Type 0 where
  minutu minuty minut : Minutes

-- `formatMinutesLeft`, on an account that is locked: the number and the word.
unfoldable pub format_minutes_left : ℕ → ℕ → ℕ × Minutes
format_minutes_left locked_until now =
    let minutes = max 1 ((locked_until - now + 59999) / 60000) in
    (
      minutes,
      if minutes % 10 == 1 && not (minutes % 100 == 11)
          then minutu
          else if leb 2 (minutes % 10)
              && (leb (minutes % 10) 4 && (ltb (minutes % 100) 12 || ltb 14 (minutes % 100)))
          then minuty
          else minut,
    )

-- The minutes that a locked account is told are enough, and less than a minute too many.
pub format_minutes_left-enough :
    (locked_until now : ℕ)
    → now < locked_until
    → (locked_until ≤ now + (format_minutes_left locked_until now).0 * 60000)
      × (now + (format_minutes_left locked_until now).0 * 60000 < locked_until + 60000)
unfolding format_minutes_left
format_minutes_left-enough locked_until now h = (omega (arith, h), omega (arith, h))

-- The browser of a phone that names both itself and `Mac OS X`, as those of an iPhone do, is
-- recorded as a mobile device with macOS.
pub phone_is_mac :
    (ua : Text)
    → is_empty ua ≡ false
    → mentions windows_nt ua ≡ false
    → mentions mac_os_x ua ≡ true
    → mentions iphone ua ≡ true
    → ((parse_user_agent ua).os ≡ some mac_os) × ((parse_user_agent ua).device ≡ some mobile_device)
unfolding parse_user_agent
phone_is_mac ua filled no_windows mac phone = (ground arith, ground arith)
