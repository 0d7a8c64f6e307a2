-- ===== src/Tests/Texts.antt =====
-- Lines of the log, src/common/log.c.
use rs_serve.Base.{◌≡◌, Bytes, codes}
use rs_serve.Log.{logged, overruns, log_warn, log_info, log_error}
use rs_serve.Log.Fits.{tagged_line, log-logged_or_overruns}

abbrev clock : Bytes
clock = codes "2013-07-01 12:00:00 +0200"

abbrev no_arguments : Bytes → Bytes
no_arguments format = format

log-logged_or_overruns_example :
    (log_warn no_arguments 4711 clock (codes "up")
      ≡ logged (tagged_line no_arguments 4711 clock (codes "WARN] ") (codes "up")))
    × (log_info no_arguments 4711 clock (codes "up")
        ≡ logged (tagged_line no_arguments 4711 clock (codes "INFO] ") (codes "up")))
    × (log_error no_arguments 4711 clock (codes "up")
        ≡ logged (tagged_line no_arguments 4711 clock (codes "ERROR] ") (codes "up")))
log-logged_or_overruns_example = log-logged_or_overruns no_arguments 4711 clock (codes "up")

long_pid_test : log_warn no_arguments 123456 clock (codes "up") ≡ overruns
long_pid_test = (log-logged_or_overruns no_arguments 123456 clock (codes "up")).0
