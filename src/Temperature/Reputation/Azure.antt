-- ===== src/Temperature/Reputation/Azure.antt =====
-- The Azure prefixes of internal/temperature/reputation.go.
use eu_trust_sdk.Base.{List, [], ◌∷◌, Text, codes}

unfoldable pub azure : List Text
azure =
    codes "4.145.0.0/16"
    ∷ codes "4.146.0.0/15"
    ∷ codes "4.148.0.0/14"
    ∷ codes "4.152.0.0/14"
    ∷ codes "4.156.0.0/14"
    ∷ codes "4.160.0.0/14"
    ∷ codes "4.164.0.0/14"
    ∷ codes "4.168.0.0/14"
    ∷ codes "4.172.0.0/14"
    ∷ codes "4.176.0.0/14"
    ∷ codes "4.180.0.0/14"
    ∷ codes "4.186.0.0/15"
    ∷ codes "4.188.0.0/14"
    ∷ codes "4.192.0.0/14"
    ∷ codes "4.196.0.0/14"
    ∷ codes "4.201.0.0/16"
    ∷ codes "4.202.0.0/15"
    ∷ codes "4.204.0.0/14"
    ∷ codes "4.208.0.0/14"
    ∷ codes "4.212.0.0/14"
    ∷ codes "4.216.0.0/14"
    ∷ codes "4.221.0.0/16"
    ∷ codes "4.222.0.0/15"
    ∷ codes "4.224.0.0/15"
    ∷ codes "4.228.0.0/16"
    ∷ codes "4.230.0.0/16"
    ∷ codes "4.233.0.0/16"
    ∷ codes "4.234.0.0/15"
    ∷ codes "4.237.0.0/16"
    ∷ codes "4.241.0.0/16"
    ∷ codes "4.243.0.0/16"
    ∷ codes "4.244.0.0/16"
    ∷ codes "4.250.0.0/16"
    ∷ codes "4.252.0.0/15"
    ∷ codes "13.64.0.0/16"
    ∷ codes "13.65.0.0/16"
    ∷ codes "13.74.0.0/15"
    ∷ codes "13.76.0.0/14"
    ∷ codes "13.80.0.0/14"
    ∷ codes "13.84.0.0/15"
    ∷ codes "13.89.0.0/16"
    ∷ codes "13.90.0.0/15"
    ∷ codes "13.92.0.0/14"
    ∷ codes "13.95.0.0/16"
    ∷ codes "20.0.0.0/16"
    ∷ codes "20.2.0.0/15"
    ∷ codes "20.4.0.0/15"
    ∷ codes "20.7.0.0/16"
    ∷ codes "20.8.0.0/16"
    ∷ codes "20.10.0.0/16"
    ∷ codes "20.16.0.0/14"
    ∷ codes "20.22.0.0/15"
    ∷ codes "20.24.0.0/14"
    ∷ codes "20.28.0.0/15"
    ∷ codes "20.36.0.0/14"
    ∷ codes "20.40.0.0/14"
    ∷ codes "20.50.0.0/15"
    ∷ codes "20.54.0.0/15"
    ∷ codes "20.56.0.0/16"
    ∷ codes "20.61.0.0/16"
    ∷ codes "20.71.0.0/16"
    ∷ codes "20.73.0.0/16"
    ∷ codes "20.76.0.0/16"
    ∷ codes "20.79.0.0/16"
    ∷ codes "20.86.0.0/16"
    ∷ codes "20.88.0.0/14"
    ∷ codes "20.96.0.0/16"
    ∷ codes "20.101.0.0/16"
    ∷ codes "20.103.0.0/16"
    ∷ codes "20.104.0.0/14"
    ∷ codes "20.108.0.0/15"
    ∷ codes "20.110.0.0/16"
    ∷ codes "20.116.0.0/16"
    ∷ codes "20.121.0.0/16"
    ∷ codes "20.122.0.0/16"
    ∷ codes "20.124.0.0/16"
    ∷ codes "20.126.0.0/15"
    ∷ codes "20.150.0.0/15"
    ∷ codes "20.160.0.0/15"
    ∷ codes "20.164.0.0/16"
    ∷ codes "20.166.0.0/16"
    ∷ codes "20.171.0.0/16"
    ∷ codes "20.173.0.0/16"
    ∷ codes "20.174.0.0/16"
    ∷ codes "20.184.0.0/14"
    ∷ codes "20.188.0.0/15"
    ∷ codes "20.192.0.0/14"
    ∷ codes "20.196.0.0/14"
    ∷ codes "20.200.0.0/14"
    ∷ codes "20.204.0.0/14"
    ∷ codes "20.212.0.0/16"
    ∷ codes "20.215.0.0/16"
    ∷ codes "20.218.0.0/15"
    ∷ codes "20.220.0.0/14"
    ∷ codes "20.224.0.0/14"
    ∷ codes "20.228.0.0/15"
    ∷ codes "20.232.0.0/15"
    ∷ codes "20.239.0.0/16"
    ∷ codes "20.242.0.0/15"
    ∷ codes "20.244.0.0/14"
    ∷ codes "20.249.0.0/16"
    ∷ codes "20.250.0.0/15"
    ∷ codes "20.255.0.0/16"
    ∷ codes "40.68.0.0/16"
    ∷ codes "40.71.0.0/16"
    ∷ codes "40.76.0.0/16"
    ∷ codes "40.84.0.0/15"
    ∷ codes "40.88.0.0/15"
    ∷ codes "40.114.0.0/15"
    ∷ codes "40.116.0.0/15"
    ∷ codes "40.121.0.0/16"
    ∷ codes "40.124.0.0/16"
    ∷ codes "48.194.0.0/15"
    ∷ codes "48.196.0.0/14"
    ∷ codes "48.201.0.0/16"
    ∷ codes "48.203.0.0/16"
    ∷ codes "48.206.0.0/15"
    ∷ codes "48.210.0.0/15"
    ∷ codes "48.214.0.0/15"
    ∷ codes "48.216.0.0/14"
    ∷ codes "48.222.0.0/15"
    ∷ codes "51.56.0.0/15"
    ∷ codes "51.104.0.0/15"
    ∷ codes "51.124.0.0/16"
    ∷ codes "51.136.0.0/15"
    ∷ codes "51.144.0.0/15"
    ∷ codes "52.146.0.0/15"
    ∷ codes "52.148.0.0/14"
    ∷ codes "52.152.0.0/14"
    ∷ codes "52.160.0.0/14"
    ∷ codes "52.166.0.0/15"
    ∷ codes "52.168.0.0/15"
    ∷ codes "52.170.0.0/15"
    ∷ codes "52.173.0.0/16"
    ∷ codes "52.174.0.0/16"
    ∷ codes "52.177.0.0/16"
    ∷ codes "52.178.0.0/15"
    ∷ codes "52.186.0.0/15"
    ∷ codes "52.188.0.0/14"
    ∷ codes "52.224.0.0/15"
    ∷ codes "52.226.0.0/16"
    ∷ codes "52.228.0.0/14"
    ∷ codes "52.232.0.0/15"
    ∷ codes "52.236.0.0/15"
    ∷ codes "52.240.0.0/15"
    ∷ codes "52.241.0.0/16"
    ∷ codes "52.254.0.0/15"
    ∷ codes "104.40.0.0/14"
    ∷ codes "104.214.0.0/15"
    ∷ codes "108.140.0.0/14"
    ∷ []
