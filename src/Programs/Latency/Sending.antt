-- ===== src/Programs/Latency/Sending.antt =====
-- What the producer of bench/bench_lat_pub_sub.cpp opens it gives back.
use natsclient_cpp.Nats.{◌>>=◌}
use natsclient_cpp.Client.Connection
use natsclient_cpp.Programs.Session.Closing.{Accounts}
