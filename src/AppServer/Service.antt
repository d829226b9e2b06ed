-- ===== src/AppServer/Service.antt =====
-- The app server's service: servicePID, processElapsed and parseElapsed of
-- notifications/internal/appservercontrol/update.go, and restart of restart.go. A user id is `none` where
-- it is negative; the elapsed time is the pattern of an int64 of nanoseconds.
use Prim.Native.Char.{code}
use Prim.Native.String.{◌++◌}
use nova_codex_bootstrap.Prelude.{
  ℕ, ◌+◌, ◌*◌, ◌%◌, ◌^◌, ◌≡◌, refl, String, Bool, false, ◌&&◌, List, [], ◌∷◌, Option, none, some,
  ltb, ◌==◌, str_eq, is_empty, if◌then◌else◌,
}
use nova_codex_bootstrap.Prelude.Decimal.{decimal, read_digits}
use nova_codex_bootstrap.Protocol.Text.{trim_space, fields}

-- The commands: whether one succeeds, and what it prints (`none` is a failure).
pub record Runner : Type 0 where
  pub run : List String → Bool
  pub output : List String → Option String

abbrev service_label : String
service_label = "dev.galaxnet.novascale.codex"

abbrev service_file : String
service_file = "novascale-codex.service"

-- strings.Split on one ASCII character: the first part, and the others
unfoldable pub split_on : ℕ → String → String × List String
split_on separator String.[] = (String.[], [])
split_on separator (String.◌∷◌ c s) =
    let (first, rest) = split_on separator s in
    if code c == separator then (String.[], first ∷ rest) else (String.◌∷◌ c first, rest)

abbrev below_sign_bit : Option ℕ → Option ℕ
below_sign_bit none = none
below_sign_bit (some n) = if ltb n (2 ^ 63) then some n else none

abbrev only_zero : Option ℕ → Option ℕ
only_zero none = none
only_zero (some n) = if n == 0 then some 0 else none

abbrev whole_number : String → Option ℕ
whole_number s = if is_empty s then none else read_digits 0 s

-- strconv.ParseInt in base 10 with 64 bits, for a value that must not be negative
unfoldable pub parse_natural : String → Option ℕ
parse_natural String.[] = none
parse_natural (String.◌∷◌ c s) =
    if code c == b'+'
    then below_sign_bit (whole_number s)
    else if code c == b'-'
    then only_zero (whole_number s)
    else below_sign_bit (read_digits 0 (String.◌∷◌ c s))

abbrev if_positive : Option ℕ → Option ℕ
if_positive none = none
if_positive (some n) = if n == 0 then none else some n

-- positivePID
unfoldable pub positive_pid : String → Option ℕ
unfolding parse_natural
positive_pid value = if_positive (parse_natural value)

abbrev pid_field : List String → Option String
pid_field (key ∷ equals ∷ value ∷ []) =
    if str_eq key "pid" && str_eq equals "=" then some value else none
pid_field _ = none

-- The value of the first line `pid = …`.
unfoldable pub pid_value : List String → Option String
pid_value [] = none
pid_value (line ∷ lines) =
    let rest = pid_value lines in
    elim (pid_field (fields line)) [ none ↦ rest | some value ↦ some value ]

abbrev pid_of : Option String → Option ℕ
pid_of none = none
pid_of (some value) = positive_pid value

abbrev pid_of_launchctl : Option String → Option ℕ
pid_of_launchctl none = none
pid_of_launchctl (some output) =
    let (first, rest) = split_on 10 output in pid_of (pid_value (first ∷ rest))

abbrev pid_of_systemctl : Option String → Option ℕ
pid_of_systemctl none = none
pid_of_systemctl (some output) = positive_pid (trim_space output)

abbrev launchctl_pid : Runner → Option ℕ → Option ℕ
launchctl_pid r none = none
launchctl_pid r (some uid) =
    pid_of_launchctl
      (r.output ("launchctl" ∷ "print" ∷ ("gui/" ++ (decimal uid ++ ("/" ++ service_label))) ∷ []))

-- servicePID; `none` is an error
unfoldable pub service_pid : String → Option ℕ → Runner → Option ℕ
unfolding positive_pid pid_value split_on
service_pid goos uid r =
    if str_eq goos "darwin"
    then launchctl_pid r uid
    else if str_eq goos "linux"
    then pid_of_systemctl (
        r.output
          ("systemctl" ∷ "--user" ∷ "show" ∷ "--property=MainPID" ∷ "--value" ∷ service_file ∷ []))
    else none

-- the four parts of the elapsed time; the minutes and seconds are below 60
unfoldable pub duration : Option ℕ → Option ℕ → Option ℕ → Option ℕ → Option ℕ
duration (some days) (some hours) (some minutes) (some seconds) =
    if ltb minutes 60 && ltb seconds 60
    then some ((((days * 24 + hours) * 60 + minutes) * 60 + seconds) * 10 ^ 9 % 2 ^ 64)
    else none
duration _ _ _ _ = none

clock_parts : Option ℕ → String × List String → Option ℕ
unfolding duration
clock_parts days (minutes, seconds ∷ []) =
    duration days (some 0) (parse_natural minutes) (parse_natural seconds)
clock_parts days (hours, minutes ∷ seconds ∷ []) =
    duration days (parse_natural hours) (parse_natural minutes) (parse_natural seconds)
clock_parts days _ = none

-- strings.IndexByte(value, '-'): what stands before it, if it is there, and what follows
unfoldable pub cut_days : String → Option String × String
cut_days String.[] = (none, String.[])
cut_days (String.◌∷◌ c s) =
    let (before, after) = cut_days s in
    if code c == b'-' then (some "", s) else elim before [
      | none ↦ (none, String.◌∷◌ c s)
      | some days ↦ (some (String.◌∷◌ c days), after)
    ]

abbrev elapsed_from : Option String × String → Option ℕ
elapsed_from (none, clock) = clock_parts (some 0) (split_on b':' clock)
elapsed_from (some days, clock) = clock_parts (parse_natural days) (split_on b':' clock)

-- parseElapsed; `none` is an error
unfoldable pub parse_elapsed : String → Option ℕ
unfolding clock_parts cut_days split_on parse_natural
parse_elapsed value = if is_empty value then none else elapsed_from (cut_days value)

abbrev elapsed_of : Option String → Option ℕ
elapsed_of none = none
elapsed_of (some output) = parse_elapsed (trim_space output)

-- processElapsed
unfoldable pub process_elapsed : ℕ → Runner → Option ℕ
unfolding parse_elapsed
process_elapsed pid r = elapsed_of (r.output ("ps" ∷ "-p" ∷ decimal pid ∷ "-o" ∷ "etime=" ∷ []))

-- restart: the command, if there is one for the system
unfoldable pub restart_command : String → Option ℕ → Option (List String)
restart_command goos uid =
    if str_eq goos "darwin"
    then elim uid [
      | none ↦ none
      | some n ↦ some (
          "launchctl" ∷ "kickstart" ∷ "-k" ∷ ("gui/" ++ (decimal n ++ ("/" ++ service_label))) ∷ [])
    ]
    else if str_eq goos "linux"
    then some ("systemctl" ∷ "--user" ∷ "restart" ∷ service_file ∷ [])
    else none

abbrev runs : Runner → Option (List String) → Bool
runs r none = false
runs r (some command) = r.run command

-- restart: true is a nil error
unfoldable pub restart : String → Option ℕ → Runner → Bool
unfolding restart_command
restart goos uid r = runs r (restart_command goos uid)

three_days : parse_elapsed "3-04:05:06" ≡ some (((((3 * 24 + 4) * 60 + 5) * 60) + 6) * 10 ^ 9)
unfolding parse_elapsed duration read_digits
three_days = refl

seconds_only : parse_elapsed "05" ≡ none
unfolding parse_elapsed
seconds_only = refl

abbrev elapsed_for : Runner → Option ℕ → Option ℕ
elapsed_for r none = none
elapsed_for r (some pid) = process_elapsed pid r

-- The elapsed time that inspectUpdate compares.
unfoldable pub service_elapsed : String → Option ℕ → Runner → Option ℕ
unfolding service_pid process_elapsed
service_elapsed goos uid r = elapsed_for r (service_pid goos uid r)
