-- ===== src/Error/Examples.antt =====
-- Codes on which the theorems on error.h are run, with the values that Boost has on Linux.
use ozo_pg.Base.{ℕ, zero, suc, ◌≢◌, ◌≡◌, refl}
use ozo_pg.Error.{
  OzoError, AsioError, broken_pipe, connection_aborted, connection_refused, connection_reset, fault,
  host_unreachable, interrupted, network_reset, not_connected, operation_aborted, shut_down,
  timed_out, try_again, host_not_found, host_not_found_try_again, no_data, no_recovery, Errc, Boost,
  Category, ozo, sql_state, errc, boost, ErrorCode, same_code, ozo_error, is_errc,
}
use ozo_pg.Error.Condition.{IsDocumented, classify, is_class, is_errc-ozo_error}

-- The category, of the system or of the resolver, and the value of each code.
abbrev asio_code : AsioError → ℕ × ℕ
asio_code broken_pipe = (0, 32)
asio_code connection_aborted = (0, 103)
asio_code connection_refused = (0, 111)
asio_code connection_reset = (0, 104)
asio_code fault = (0, 14)
asio_code host_unreachable = (0, 113)
asio_code interrupted = (0, 4)
asio_code network_reset = (0, 102)
asio_code not_connected = (0, 107)
asio_code operation_aborted = (0, 125)
asio_code shut_down = (0, 108)
asio_code timed_out = (0, 110)
asio_code try_again = (0, 11)
asio_code host_not_found = (1, 1)
asio_code host_not_found_try_again = (1, 2)
asio_code no_data = (1, 4)
asio_code no_recovery = (1, 3)

-- `system_category` maps its codes to the generic category, which is number 2.
abbrev default_category : Category → Category
default_category ozo = ozo
default_category sql_state = sql_state
default_category errc = errc
default_category (boost zero) = boost 2
default_category (boost (suc n)) = boost (suc n)

abbrev default_condition : ErrorCode → ErrorCode
default_condition ec = record { category = default_category ec.category; value = ec.value }

linux-default :
    (c : Category) (v : ℕ) (condition : ErrorCode)
    → ((n : ℕ) → c ≢ boost n)
    → same_code (default_condition (record { category = c; value = v })) condition
      ≡ same_code (record { category = c; value = v }) condition
linux-default ozo v condition other = refl
linux-default sql_state v condition other = refl
linux-default errc v condition other = refl
linux-default (boost n) v condition other = absurd (other n refl)

abbrev pub linux : Boost
linux = record {
  asio = λ e. record { category = boost (asio_code e).0; value = (asio_code e).1 };
  io_error = λ ec. same_code ec (record { category = boost 0; value = 5 });
  base_equivalent = same_code;
  default_equivalent = λ ec condition. same_code (default_condition ec) condition;
}

linux-IsDocumented : IsDocumented linux
linux-IsDocumented = record {
  base = λ a c. refl;
  default = λ a c other. linux-default a.category a.value c other;
  asio_boost = λ e. ((asio_code e).0, refl);
  io_sqlstate = λ v. refl;
  io_ozo = λ e. refl;
}

-- SQLSTATE 08006, `connection_failure`, and the classes 08 and 25.
abbrev connection_failure : ℕ
connection_failure = 373254

abbrev class_08 : ℕ
class_08 = 373248

abbrev class_25 : ℕ
class_25 = 3592512

is_errc-ozo_error_example :
    is_errc linux Errc.protocol_error (ozo_error OzoError.no_sql_state_found)
    ≡ is_class (classify OzoError.no_sql_state_found) Errc.protocol_error
is_errc-ozo_error_example =
    is_errc-ozo_error linux linux-IsDocumented Errc.protocol_error OzoError.no_sql_state_found
      (λ e. cc)
